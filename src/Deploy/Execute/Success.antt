-- ===== src/Deploy/Execute/Success.antt =====
-- What a whole deployment with the rolling strategy has done when it returns no error.
use mathlib.Core.Path.{subst}
use lattice_runner.Base.{
  ℕ, ◌≡◌, ◌≢◌, ◌<◌, refl, sym, ◌∙◌, Option, none, some, ◌∷◌, codes, text_eq, All, All-map,
  Option-cases, Bool-cases, inl, inr,
}
use lattice_runner.Docker.{Trace, Docker, M, ◌>>=◌, pure, log, logged, Ran, here, next, ran}
use lattice_runner.Deploy.Spec.{DeploymentSpec, validate, replica_count, replica_name}
use lattice_runner.Deploy.Rolling.{execute_rolling}
use lattice_runner.Deploy.Rolling.Success.{Deployed, Deployed-Ran, execute_rolling-Deployed}
use lattice_runner.Deploy.Execute.{
  Failure, event_started, low_on_disk, failed_as, run_rolling, run_strategy, after_strategy,
  after_preflight, preflight, execute_body, log_outcome, execute,
}
use lattice_runner.Deploy.Execute.Lifecycle.{after_strategy-Emits, log_outcome-logs}

-- Every replica of every container was made and found running.
abbrev pub AllDeployed : DeploymentSpec → Trace → Type 0
AllDeployed spec u =
    All (λ c. (k : ℕ) → k < replica_count c → Deployed spec c (replica_name c k) u) spec.containers

AllDeployed-Ran :
    (spec : DeploymentSpec) {P : _} {t u : Trace}
    → Ran P t u
    → AllDeployed spec t
    → AllDeployed spec u
AllDeployed-Ran spec r h =
    All-map _ _ (λ c was k below. Deployed-Ran spec c (replica_name c k) r (was k below))
      spec.containers h

no_failure : {E : Type 0} (f : E → Failure) (o : Option E) → failed_as f o ≡ none → o ≡ none
no_failure f none h = refl
no_failure f (some e) h = cc

-- Where the action returns no error, the history shows the replicas.
data Shows (spec : DeploymentSpec) (m : M (Option Failure)) : Type 0 where
  shows : ((t : Trace) → (m t).0 ≡ none → AllDeployed spec (m t).1) → Shows spec m

shown :
    {spec : DeploymentSpec} {m : M (Option Failure)}
    → Shows spec m
    → (t : Trace) → (m t).0 ≡ none
    → AllDeployed spec (m t).1
shown (shows f) = f

Shows-after :
    {spec : DeploymentSpec} {A : Type 0} (m : M A) {f : A → M (Option Failure)}
    → ((a : A) → Shows spec (f a))
    → Shows spec (m >>= f)
unfolding ◌>>=◌
Shows-after m k = shows (λ t e. shown (k (m t).0) (m t).1 e)

module _ (d : Docker) (spec : DeploymentSpec) where
  after_strategy-error : (e : Failure) (t : Trace) → (after_strategy d spec (some e) t).0 ≢ none
  unfolding after_strategy ◌>>=◌ pure
  after_strategy-error e t = λ h. cc

  strategy-Shows :
      (m : M (Option Failure)) → Shows spec m → Shows spec (m >>= after_strategy d spec)
  unfolding ◌>>=◌
  strategy-Shows m (shows f) = shows (λ t h. elim (Option-cases (m t).0) [
    | inl e ↦ rw e (AllDeployed-Ran spec (ran (after_strategy-Emits d spec none) (m t).1) (f t e))
    | inr (x, e) ↦ absurd (after_strategy-error x (m t).1 (rw e at h))
  ])

  run_rolling-Shows : Shows spec (run_rolling d spec)
  unfolding run_rolling ◌>>=◌ pure
  run_rolling-Shows =
      shows (λ t h. execute_rolling-Deployed d spec t (no_failure _ (execute_rolling d spec t).0 h))

  run_strategy-rolling : spec.strategy ≡ codes "rolling" → run_strategy d spec ≡ run_rolling d spec
  unfolding run_strategy text_eq
  run_strategy-rolling e = rw e refl

  module _ (rolling : spec.strategy ≡ codes "rolling") where
    after_preflight-Shows : Shows spec (after_preflight d spec)
    unfolding after_preflight
    after_preflight-Shows = Shows-after _ λ _. Shows-after _ λ _. Shows-after _ λ _.
        Shows-after _ λ _. Shows-after _ λ _.
          strategy-Shows (run_strategy d spec)
            (subst (Shows spec) (sym (run_strategy-rolling rolling)) run_rolling-Shows)

    preflight-Shows : Shows spec (preflight d spec)
    unfolding preflight
    preflight-Shows = shows (λ t h. elim (Bool-cases (low_on_disk (d.free_bytes t))) [
      | inl low ↦ absurd (cc (rw low at h))
      | inr enough ↦ rw enough (shown after_preflight-Shows t (rw enough at h))
    ])

    execute_body-Shows : Shows spec (execute_body d spec)
    unfolding execute_body pure
    execute_body-Shows = elim (Option-cases (validate spec)) [
      | inl e ↦ rw (e, execute_body) preflight-Shows
      | inr (i, e) ↦ rw (e, execute_body) (shows (λ t h. cc))
    ]

  log_outcome-Ran : (e : Option Failure) (u : Trace) → Ran (λ _. Unit) u (log_outcome d spec e u).1
  unfolding log_outcome log ◌>>=◌ pure
  log_outcome-Ran none u = next tt here
  log_outcome-Ran (some e) u = next tt here

  -- A deployment with the rolling strategy that returns no error has created a container for every
  -- replica of every container of its specification, under the replica's name and a suffix, and has
  -- found each of them running.
  pub execute-Deployed :
      (t : Trace)
      → spec.strategy ≡ codes "rolling"
      → (execute d spec t).0 ≡ none
      → AllDeployed spec (execute d spec t).1
  unfolding execute ◌>>=◌ log
  execute-Deployed t rolling h =
      let (e, u) = execute_body d spec (logged event_started ∷ t) in
      AllDeployed-Ran spec (log_outcome-Ran e u) (
        shown (execute_body-Shows rolling) (logged event_started ∷ t)
          (sym (log_outcome-logs d spec e u).1 ∙ h))
