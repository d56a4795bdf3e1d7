-- ===== src/Deploy/Execute/Lifecycle.antt =====
-- The lifecycle events of one deployment.
use lattice_runner.Base.{
  ◌≡◌, refl, ◌∙◌, Bool, true, false, not, Option, none, some, List, [], ◌∷◌, Text, All,
  Option-cases, Bool-cases, inl, inr,
}
use lattice_runner.Docker.{
  Event, pulled, created, started, stopped, killed, removed, renamed, inspected, listed,
  network_made, volume_made, slept, reported, logged, Trace, Docker, M, ◌>>=◌, pure, log,
  list_containers, Obeys, Ran, here, next, Ran-map, Emits, emits, ran, quiet, Obeys-quiet,
  Emits-bind, Emits-if, Emits-pure, Emits-report, Emits-network, Emits-volume, Emits-for_each,
}
use lattice_runner.Deploy.Spec.{DeploymentSpec, Named, validate}
use lattice_runner.Deploy.Cleanup.{
  cleanup_stale_containers, force_remove_all_stack_containers, over,
}
use lattice_runner.Deploy.Cleanup.Safety.{
  removes_only, IsStale, IsForced, cleanup_stale_containers-safe, force_remove-safe,
}
use lattice_runner.Deploy.Canary.Calls.{execute_rolling-quiet, execute_canary-Emits}
use lattice_runner.Deploy.BlueGreen.Calls.{execute_blue_green-Emits}
use lattice_runner.Deploy.Verify.{VerifyError}
use lattice_runner.Deploy.Verify.Checks.{post_deploy_verify-Emits}
use lattice_runner.Deploy.Execute.{
  Failure, event_started, event_succeeded, event_failed, step_validate, low_on_disk, ensure_network,
  ensure_volume, run_rolling, run_blue_green, run_canary, run_strategy, when, finish,
  after_strategy, after_preflight, preflight, execute_body, log_outcome, execute,
}

-- The lifecycle events of a history, the newest first.
unfoldable pub logs : Trace → List Text
logs [] = []
logs (logged event ∷ t) = event ∷ logs t
logs (_ ∷ t) = logs t

logs-quiet : (e : Event) (t : Trace) → Obeys quiet e → logs (e ∷ t) ≡ logs t
unfolding logs
logs-quiet (logged event) t h = absurd h
logs-quiet (created s a) t h = refl
logs-quiet (started id b) t h = refl
logs-quiet (stopped id b) t h = refl
logs-quiet (killed id b) t h = refl
logs-quiet (removed id b) t h = refl
logs-quiet (renamed id name b) t h = refl
logs-quiet (pulled i b) t h = refl
logs-quiet (inspected id i) t h = refl
logs-quiet (listed cs) t h = refl
logs-quiet (network_made n d b) t h = refl
logs-quiet (volume_made n d b) t h = refl
logs-quiet (slept ms) t h = refl
logs-quiet (reported s) t h = refl

logs-Ran : {t u : Trace} → Ran (Obeys quiet) t u → logs u ≡ logs t
logs-Ran here = refl
logs-Ran (next {u} {e} h r) = logs-quiet e u h ∙ logs-Ran r

All-unit : {A : Type 0} (xs : List A) → All (λ _. Unit {0}) xs
All-unit [] = tt
All-unit (x ∷ xs) = (tt, All-unit xs)

module _ (d : Docker) (spec : DeploymentSpec) where
  cleanup-unlisted :
      (t : Trace) → d.list t [] ≡ none → cleanup_stale_containers d spec t ≡ (tt, listed none ∷ t)
  unfolding cleanup_stale_containers over ◌>>=◌ list_containers pure
  cleanup-unlisted t e = rw e

  cleanup-Emits : Emits quiet (cleanup_stale_containers d spec)
  cleanup-Emits = emits (λ t. elim (Option-cases (d.list t [])) [
    | inl e ↦ rw (cleanup-unlisted t e) (next tt here)
    | inr (cs, e) ↦
        Ran-map (Obeys-quiet (removes_only cs (IsStale spec)) (λ event h. h))
          (cleanup_stale_containers-safe d spec cs t e)
  ])

  force-unlisted :
      (t : Trace)
      → d.list t [] ≡ none
      → force_remove_all_stack_containers d spec t ≡ (tt, listed none ∷ t)
  unfolding force_remove_all_stack_containers over ◌>>=◌ list_containers pure
  force-unlisted t e = rw e

  force-Emits : Emits quiet (force_remove_all_stack_containers d spec)
  force-Emits = emits (λ t. elim (Option-cases (d.list t [])) [
    | inl e ↦ rw (force-unlisted t e) (next tt here)
    | inr (cs, e) ↦
        Ran-map (Obeys-quiet (removes_only cs (IsForced spec)) (λ event h. h))
          (force_remove-safe d spec cs t e)
  ])

  run_strategy-Emits : Emits quiet (run_strategy d spec)
  unfolding run_strategy run_rolling run_blue_green run_canary
  run_strategy-Emits =
      let rolling = Emits-bind (execute_rolling-quiet d spec) λ e. Emits-pure _ in
      Emits-if _ rolling (
        Emits-if _ (Emits-bind (execute_blue_green-Emits d spec) λ e. Emits-pure _)
          (Emits-if _ (Emits-bind (execute_canary-Emits d spec) λ e. Emits-pure _) rolling))

  finish-Emits : (e : Option VerifyError) → Emits quiet (finish d spec e)
  unfolding finish
  finish-Emits none = Emits-bind (Emits-report _) λ _. Emits-pure _
  finish-Emits (some e) = Emits-bind (Emits-report _) λ _. Emits-pure _

  pub after_strategy-Emits : (e : Option Failure) → Emits quiet (after_strategy d spec e)
  unfolding after_strategy
  after_strategy-Emits none = Emits-bind (post_deploy_verify-Emits d spec) λ e. finish-Emits e
  after_strategy-Emits (some e) = Emits-bind (Emits-report _) λ _. Emits-pure _

  when-Emits : (b : Bool) {m : M (Unit {0})} → Emits quiet m → Emits quiet (when d spec b m)
  unfolding when
  when-Emits true h = h
  when-Emits false h = Emits-pure _

  ensure_network-Emits : (n : Named) → Emits quiet (ensure_network d spec n)
  unfolding ensure_network
  ensure_network-Emits n =
      Emits-bind (Emits-report _) λ _. Emits-bind (Emits-network d _ _) λ _. Emits-pure _

  ensure_volume-Emits : (v : Named) → Emits quiet (ensure_volume d spec v)
  unfolding ensure_volume
  ensure_volume-Emits v =
      Emits-bind (Emits-report _) λ _. Emits-bind (Emits-volume d _ _) λ _. Emits-pure _

  after_preflight-Emits : Emits quiet (after_preflight d spec)
  unfolding after_preflight
  after_preflight-Emits = Emits-bind (Emits-report _) λ _.
      Emits-bind
        (Emits-for_each (λ _. Unit) spec.networks (All-unit _) λ n _. ensure_network-Emits n)
        λ _.
          Emits-bind
            (Emits-for_each (λ _. Unit) spec.volumes (All-unit _) λ v _. ensure_volume-Emits v)
            λ _. Emits-bind (when-Emits (not spec.targeted) cleanup-Emits) λ _.
              Emits-bind (when-Emits spec.force force-Emits)
                λ _. Emits-bind run_strategy-Emits λ e. after_strategy-Emits e

  preflight-Emits : Emits quiet (preflight d spec)
  unfolding preflight
  preflight-Emits = emits (λ t. elim (Bool-cases (low_on_disk (d.free_bytes t))) [
    | inl low ↦ rw low here
    | inr enough ↦ rw enough (ran after_preflight-Emits t)
  ])

  execute_body-Emits : Emits quiet (execute_body d spec)
  unfolding execute_body
  execute_body-Emits = elim (Option-cases (validate spec)) [
    | inl e ↦ rw (e, execute_body) preflight-Emits
    | inr (i, e) ↦ rw (e, execute_body) (Emits-pure (some (step_validate i)))
  ]

-- The event that reports how a deployment ended.
unfoldable pub outcome_event : Option Failure → Text
outcome_event none = event_succeeded
outcome_event (some e) = event_failed

pub log_outcome-logs :
    (d : Docker) (spec : DeploymentSpec) (e : Option Failure) (u : Trace)
    → (logs (log_outcome d spec e u).1 ≡ outcome_event e ∷ logs u)
      × ((log_outcome d spec e u).0 ≡ e)
unfolding log_outcome ◌>>=◌ pure log logs outcome_event
log_outcome-logs d spec none u = (refl, refl)
log_outcome-logs d spec (some e) u = (refl, refl)

-- Every deployment writes exactly two lifecycle events, whatever the engine answers: one start, and
-- then one outcome, which is a success where it returns no error and a failure where it returns one.
pub execute-lifecycle :
    (d : Docker) (spec : DeploymentSpec) (t : Trace)
    → logs (execute d spec t).1 ≡ outcome_event (execute d spec t).0 ∷ event_started ∷ logs t
unfolding execute ◌>>=◌ log logs
execute-lifecycle d spec t =
    let (e, u) = execute_body d spec (logged event_started ∷ t) in
    let (written, same) = log_outcome-logs d spec e u in
    let body : logs u ≡ event_started ∷ logs t =
      logs-Ran (ran (execute_body-Emits d spec) (logged event_started ∷ t)) in
    rw (written, same, body)
