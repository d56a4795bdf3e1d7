-- ===== src/Deploy/Execute.antt =====
-- Execute and execute of deploy/executor.go. The container locks that a deployment holds from its
-- networks and volumes on are left to the model of deploy/locks.go.
pub mod Lifecycle
pub mod Success
use lattice_runner.Base.{
  ℕ, Bool, true, false, not, ltb, Option, none, some, Text, codes, text_eq, if◌then◌else◌, is_nil,
}
use lattice_runner.Docker.{
  Docker, M, ◌>>=◌, ◌>>◌, pure, report, log, create_network, create_volume, for_each,
}
use lattice_runner.Deploy.Spec.{Named, Invalid, DeploymentSpec, validate}
use lattice_runner.Deploy.Cleanup.{cleanup_stale_containers, force_remove_all_stack_containers}
use lattice_runner.Deploy.Rolling.{RollError, deploying, execute_rolling}
use lattice_runner.Deploy.BlueGreen.{BlueGreenError, execute_blue_green}
use lattice_runner.Deploy.Canary.{CanaryError, execute_canary}
use lattice_runner.Deploy.Verify.{VerifyError, post_deploy_verify}

abbrev pub event_started : Text
event_started = codes "deployment.started"

abbrev pub event_succeeded : Text
event_succeeded = codes "deployment.succeeded"

abbrev pub event_failed : Text
event_failed = codes "deployment.failed"

-- The step that failed, with its error.
pub data Failure : Type 0 where
  step_validate : Invalid → Failure
  step_preflight : Failure
  step_rolling : RollError → Failure
  step_blue_green : BlueGreenError → Failure
  step_canary : CanaryError → Failure
  step_verify : VerifyError → Failure

-- Less than 1.0 GB available, where Statfs answers at all.
unfoldable pub low_on_disk : Option ℕ → Bool
low_on_disk none = false
low_on_disk (some bytes) = ltb bytes 1_073_741_824

abbrev failed_as : {E : Type 0} → (E → Failure) → Option E → Option Failure
failed_as f none = none
failed_as f (some e) = some (f e)

driver_or : Text → Text → Text
driver_or fallback driver = if is_nil driver then fallback else driver

module _ (d : Docker) (spec : DeploymentSpec) where
  ensure_network : Named → M (Unit {0})
  ensure_network n = do
    report deploying
    create_network d n.name (driver_or (codes "bridge") n.driver)
    pure tt

  ensure_volume : Named → M (Unit {0})
  ensure_volume v = do
    report deploying
    create_volume d v.name (driver_or (codes "local") v.driver)
    pure tt

  run_rolling : M (Option Failure)
  run_rolling = do e ← execute_rolling d spec; pure (failed_as step_rolling e)

  run_blue_green : M (Option Failure)
  run_blue_green = do e ← execute_blue_green d spec; pure (failed_as step_blue_green e)

  run_canary : M (Option Failure)
  run_canary = do e ← execute_canary d spec; pure (failed_as step_canary e)

  -- The switch over the strategies; rolling is the default.
  unfoldable pub run_strategy : M (Option Failure)
  unfolding run_rolling run_blue_green run_canary
  run_strategy =
      if text_eq spec.strategy (codes "rolling")
      then run_rolling
      else if text_eq spec.strategy (codes "blue-green")
      then run_blue_green
      else if text_eq spec.strategy (codes "canary")
      then run_canary
      else run_rolling

  when : Bool → M (Unit {0}) → M (Unit {0})
  when true m = m
  when false m = pure tt

  finish : Option VerifyError → M (Option Failure)
  finish (some e) = report (codes "failed") >> pure (some (step_verify e))
  finish none = report (codes "deployed") >> pure none

  pub after_strategy : Option Failure → M (Option Failure)
  after_strategy (some e) = report (codes "failed") >> pure (some e)
  after_strategy none = do e ← post_deploy_verify d spec; finish e

  after_preflight : M (Option Failure)
  after_preflight = do
    report deploying
    for_each ensure_network spec.networks
    for_each ensure_volume spec.volumes
    when (not spec.targeted) (cleanup_stale_containers d spec)
    when spec.force (force_remove_all_stack_containers d spec)
    e ← run_strategy
    after_strategy e

  preflight : M (Option Failure)
  preflight t = if low_on_disk (d.free_bytes t) then (some step_preflight, t) else after_preflight t

  -- `execute`; `none` is Go's nil error.
  unfoldable pub execute_body : M (Option Failure)
  unfolding preflight after_preflight ensure_network ensure_volume driver_or when after_strategy
      finish
  execute_body = elim (validate spec) [ some e ↦ pure (some (step_validate e)) | none ↦ preflight ]

  pub log_outcome : Option Failure → M (Option Failure)
  log_outcome none = log event_succeeded >> pure none
  log_outcome (some e) = log event_failed >> pure (some e)

  -- `Execute`
  unfoldable pub execute : M (Option Failure)
  unfolding log_outcome
  execute = do log event_started; e ← execute_body; log_outcome e
