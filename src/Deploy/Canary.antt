-- ===== src/Deploy/Canary.antt =====
-- deploy/canary.go: the canary container, its monitoring window, and the rolling deployment behind
-- it. A select takes the channel that is ready first; the clock counts nanoseconds.
pub mod Window
pub mod Calls
use lattice_runner.Base.{
  ℕ, zero, suc, ◌+◌, ◌*◌, Bool, true, false, not, ltb, ◌==◌, ◌||◌, ◌&&◌, Option, none, some, List,
  [], ◌∷◌, ◌++◌, Text, codes, text_eq, if◌then◌else◌,
}
use lattice_runner.Docker.{
  Info, EngineSpec, Trace, Docker, M, ◌>>=◌, ◌>>◌, pure, sleep, report, now, pull_image,
  create_and_start, inspect_container, stop_container, remove_container,
}
use lattice_runner.Deploy.Spec.{ContainerSpec, DeploymentSpec, image_ref, engine_spec}
use lattice_runner.Deploy.Rolling.{RollError, deploying, execute_rolling}

pub data CanaryError : Type 0 where
  no_containers pull_canary create_canary canary_unhealthy : CanaryError
  rolling_error : RollError → CanaryError

abbrev pub seconds : ℕ → ℕ
seconds n = n * 1_000_000_000

-- canaryMonitorDuration
abbrev pub canary_monitor_duration : ℕ
canary_monitor_duration = seconds 30

abbrev pub canary_checks : ℕ
canary_checks = 6

-- select { case <-ctx.Done(): …; case <-time.After(5 * time.Second): }: does the context win?
done_first : Docker → ℕ → Trace → Bool
done_first d deadline t =
    if d.is_cancelled t
    then true
    else let wake = d.clock t + seconds 5 in
      if ltb deadline wake then true else if deadline == wake then d.done_wins t else false

is_unhealthy : Option Text → Bool
is_unhealthy none = false
is_unhealthy (some status) = text_eq status (codes "unhealthy")

-- Does the canary pass one check?
passes : Option Info → Bool
passes none = false
passes (some info) = if info.is_running then not (is_unhealthy info.health) else false

module _ (d : Docker) where
  context_wins : ℕ → M Bool
  context_wins deadline t = (done_first d deadline t, t)

  -- monitorCanary, with the checks that are left.
  monitor_checks : ℕ → ℕ → ℕ → M Bool
  monitor_checks zero deadline id = pure true
  monitor_checks (suc n) deadline id = do
    done ← context_wins deadline
    if done then pure false else (do
      sleep 5000
      info ← inspect_container d id
      report deploying
      if passes info then monitor_checks n deadline id else pure false)

  unfoldable pub monitor_canary : ℕ → ℕ → M Bool
  unfolding monitor_checks context_wins done_first passes is_unhealthy
  monitor_canary deadline id = monitor_checks canary_checks deadline id

  module _ (spec : DeploymentSpec) where
    -- No ports, no restarts.
    unfoldable pub canary_spec : ContainerSpec → EngineSpec
    canary_spec c =
        let new = engine_spec spec c (c.name ++ codes "-canary") in
        record new { port_mappings = []; restart_policy = codes "no" }

    as_canary : Option RollError → Option CanaryError
    as_canary none = none
    as_canary (some e) = some (rolling_error e)

    conclude : Bool → M (Option CanaryError)
    conclude false = pure (some canary_unhealthy)
    conclude true = do report deploying; e ← execute_rolling d spec; pure (as_canary e)

    watch_canary : Option ℕ → M (Option CanaryError)
    watch_canary none = pure (some create_canary)
    watch_canary (some id) = do
      report deploying
      start ← now d
      healthy ← monitor_canary (start + canary_monitor_duration) id
      stop_container d id
      remove_container d id
      conclude healthy

    after_canary_pull : Bool → ContainerSpec → M (Option CanaryError)
    after_canary_pull false c = pure (some pull_canary)
    after_canary_pull true c = do
      report deploying
      made ← create_and_start d (canary_spec c)
      watch_canary made

    canary_first : List ContainerSpec → M (Option CanaryError)
    canary_first [] = pure (some no_containers)
    canary_first (c ∷ cs) = do
      report deploying
      report deploying
      ok ← pull_image d (image_ref c)
      after_canary_pull ok c

    -- `none` is Go's nil error.
    unfoldable pub execute_canary : M (Option CanaryError)
    unfolding canary_first after_canary_pull watch_canary conclude as_canary
    execute_canary = canary_first spec.containers
