-- ===== src/Deploy/Canary/Calls.antt =====
-- A canary deployment writes no lifecycle event.
use lattice_runner.Base.{ℕ, zero, suc, ◌+◌, Bool, true, false, Option, none, some, List, [], ◌∷◌}
use lattice_runner.Docker.{
  Docker, Emits, emits, quiet, Ran-map, here, Obeys-quiet, Emits-bind, Emits-if, Emits-pure,
  Emits-report, Emits-sleep, Emits-inspect, Emits-now, Emits-stop, Emits-remove, Emits-pull,
  Emits-create,
}
use lattice_runner.Deploy.Spec.{ContainerSpec, DeploymentSpec, image_ref}
use lattice_runner.Deploy.Rolling.{deploying, execute_rolling}
use lattice_runner.Deploy.Rolling.Replica.{deploys}
use lattice_runner.Deploy.Rolling.Scope.{IsReplicaName, execute_rolling-scope}
use lattice_runner.Deploy.Canary.{
  passes, context_wins, monitor_checks, monitor_canary, canary_checks, canary_monitor_duration,
  conclude, watch_canary, after_canary_pull, canary_first, execute_canary,
}

pub execute_rolling-quiet :
    (d : Docker) (spec : DeploymentSpec) → Emits quiet (execute_rolling d spec)
execute_rolling-quiet d spec = emits (λ t.
    Ran-map (Obeys-quiet (deploys d (IsReplicaName spec.containers)) (λ event h. h))
      (execute_rolling-scope d spec t))

module _ (d : Docker) where
  context_wins-Emits : (deadline : ℕ) → Emits quiet (context_wins d deadline)
  unfolding context_wins
  context_wins-Emits deadline = emits (λ t. here)

  monitor_checks-Emits : (n deadline id : ℕ) → Emits quiet (monitor_checks d n deadline id)
  unfolding monitor_checks
  monitor_checks-Emits zero deadline id = Emits-pure _
  monitor_checks-Emits (suc n) deadline id = Emits-bind (context_wins-Emits deadline) λ done.
      Emits-if done (Emits-pure false) (
        Emits-bind (Emits-sleep 5000) λ _. Emits-bind (Emits-inspect d id) λ info.
          Emits-bind (Emits-report deploying)
            λ _. Emits-if (passes info) (monitor_checks-Emits n deadline id) (Emits-pure false))

  module _ (spec : DeploymentSpec) where
    conclude-Emits : (healthy : Bool) → Emits quiet (conclude d spec healthy)
    unfolding conclude
    conclude-Emits false = Emits-pure _
    conclude-Emits true =
        Emits-bind (Emits-report deploying)
          λ _. Emits-bind (execute_rolling-quiet d spec) λ e. Emits-pure _

    watch_canary-Emits : (made : Option ℕ) → Emits quiet (watch_canary d spec made)
    unfolding watch_canary monitor_canary
    watch_canary-Emits none = Emits-pure _
    watch_canary-Emits (some id) = Emits-bind (Emits-report deploying) λ _.
        Emits-bind (Emits-now d) λ start.
          Emits-bind (monitor_checks-Emits canary_checks (start + canary_monitor_duration) id)
            λ healthy.
              Emits-bind (Emits-stop d id tt)
                λ _. Emits-bind (Emits-remove d id tt) λ _. conclude-Emits healthy

    after_canary_pull-Emits :
        (ok : Bool) (c : ContainerSpec) → Emits quiet (after_canary_pull d spec ok c)
    unfolding after_canary_pull
    after_canary_pull-Emits false c = Emits-pure _
    after_canary_pull-Emits true c =
        Emits-bind (Emits-report deploying)
          λ _. Emits-bind (Emits-create d _ tt) λ made. watch_canary-Emits made

    canary_first-Emits : (cs : List ContainerSpec) → Emits quiet (canary_first d spec cs)
    unfolding canary_first
    canary_first-Emits [] = Emits-pure _
    canary_first-Emits (c ∷ cs) = Emits-bind (Emits-report deploying) λ _.
        Emits-bind (Emits-report deploying)
          λ _. Emits-bind (Emits-pull d (image_ref c)) λ ok. after_canary_pull-Emits ok c

    pub execute_canary-Emits : Emits quiet (execute_canary d spec)
    unfolding execute_canary
    execute_canary-Emits = canary_first-Emits spec.containers
