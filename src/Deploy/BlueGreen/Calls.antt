-- ===== src/Deploy/BlueGreen/Calls.antt =====
-- A blue-green deployment writes no lifecycle event.
use lattice_runner.Docker.{
  Docker, Emits, emits, quiet, Obeys-quiet, Ran-map, Emits-bind, Emits-pure,
}
use lattice_runner.Deploy.Spec.{DeploymentSpec}
use lattice_runner.Deploy.BlueGreen.{Decision, failed_early, decided, carry_out, execute_blue_green}
use lattice_runner.Deploy.BlueGreen.Backups.{keeps_old, decide-keeps_old}
use lattice_runner.Deploy.BlueGreen.Restore.{settle-Emits}

module _ (d : Docker) (spec : DeploymentSpec) where
  carry_out-Emits : (c : Decision) → Emits quiet (carry_out d spec c)
  unfolding carry_out
  carry_out-Emits (failed_early e) = Emits-pure _
  carry_out-Emits (decided greens s) = settle-Emits d spec greens s

  pub execute_blue_green-Emits : Emits quiet (execute_blue_green d spec)
  unfolding execute_blue_green
  execute_blue_green-Emits =
      Emits-bind
        (emits
          (λ t. Ran-map (Obeys-quiet (keeps_old d) (λ event h. h)) (decide-keeps_old d spec t)))
        carry_out-Emits
