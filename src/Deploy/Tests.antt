-- ===== src/Deploy/Tests.antt =====
-- A small engine and a small stack, and what the theorems on deployments say of them.
use lattice_runner.Base.{
  ℕ, ◌+◌, ◌*◌, ◌<◌, ◌≡◌, ◌≢◌, refl, true, false, none, some, List, [], ◌∷◌, Text, codes, All, Any,
  arith, contains, text_eq, strip_prefix, has_prefix, decimal, length,
}
use lattice_runner.Names.{canonical_container_name, is_generated_suffix_segment}
use lattice_runner.Names.Cut.{before, strip_suffix, split_last}
use lattice_runner.Docker.{
  Info, Container, Settings, Event, inspected, slept, Trace, Docker, listed, Ran, Obeys, ◌>>=◌,
  pure, sleep, report, pull_image, create_and_start, inspect_container, cancelled, list_containers,
  trim_slash,
}
use lattice_runner.Deploy.Spec.{
  ContainerSpec, DeploymentSpec, instance_names, replica_count, replica_name,
}
use lattice_runner.Deploy.Cleanup.{
  first_name, cleanup_stale_containers, force_remove_all_stack_containers,
}
use lattice_runner.Deploy.Cleanup.Safety.{
  removes_only, IsStale, IsForced, cleanup_stale_containers-safe, force_remove-safe,
}
use lattice_runner.Deploy.Rolling.{should_probe, replace_replica, execute_rolling}
use lattice_runner.Deploy.Rolling.Swap.{RollsBack, replace_replica-RollsBack}
use lattice_runner.Deploy.Rolling.Replica.{deploys}
use lattice_runner.Deploy.Rolling.Scope.{IsReplicaName, execute_rolling-scope}
use lattice_runner.Deploy.Rolling.Success.{Deployed, execute_rolling-Deployed}
use lattice_runner.Deploy.Canary.{execute_canary}
use lattice_runner.Deploy.Canary.Window.{ClockLaws, execute_canary-fails}
use lattice_runner.Deploy.Verify.{
  all_issues, state_of, id_of, distinct, expected_names, post_deploy_verify,
}
use lattice_runner.Deploy.Verify.Checks.{
  IsAlive, post_deploy_verify-alive, post_deploy_verify-unlisted,
}
use lattice_runner.Deploy.BlueGreen.{Backup, recreate, swap_failed, decide, settle}
use lattice_runner.Deploy.BlueGreen.Backups.{keeps_old, decide-keeps_old}
use lattice_runner.Deploy.BlueGreen.Restore.{StartOf, settle-restores}
use lattice_runner.Deploy.Execute.{event_started, execute}
use lattice_runner.Deploy.Execute.Lifecycle.{logs, outcome_event, execute-lifecycle}
use lattice_runner.Deploy.Execute.{execute_body, run_strategy, low_on_disk}
use lattice_runner.Deploy.Execute.Success.{AllDeployed, execute-Deployed}
use lattice_runner.Deploy.Spec.{validate, image_with_tag}
use lattice_runner.Deploy.Cleanup.{over, decision_for, cleanup_decision}
use lattice_runner.Docker.{
  for_each, stop_and_remove_container, stop_container, remove_container, log,
}
use lattice_runner.Names.{valid_container_name}
use lattice_runner.Base.{contains_any, has_rune}
use lattice_runner.Deploy.Canary.{seconds}
use lattice_runner.Deploy.BlueGreen.{wait_green, wait_rounds}
use lattice_runner.Deploy.BlueGreen.Wait.{wait_green-enough}

abbrev pub plain : Settings
plain = record {
  env_vars = [];
  cpu_limit = [];
  memory_limit = 0;
  command = [];
  entrypoint = [];
  networks = [];
  health_check = none;
  ulimits = [];
}

abbrev pub web : ContainerSpec
web = record {
  id = 1;
  name = codes "web";
  image = codes "nginx";
  tag = [];
  port_mappings = [];
  volumes = [];
  replicas = 2;
  restart_policy = [];
  network_aliases = [];
  registry_auth = none;
  settings = plain;
}

abbrev pub stack : DeploymentSpec
stack = record {
  deployment_id = 1;
  stack_name = codes "shop";
  strategy = codes "rolling";
  targeted = false;
  force = false;
  containers = web ∷ [];
  networks = [];
  volumes = [];
}

abbrev listed_one : Text → ℕ → Container
listed_one name id = record {
  id = id;
  names = name ∷ [];
  labels = (codes "managed-by", codes "lattice") ∷ (codes "lattice-stack", codes "shop") ∷ [];
  public_ports = [];
  state = codes "running";
}

abbrev present : List Container
present =
    listed_one (codes "/web-1") 11
    ∷ listed_one (codes "/web-2") 12
    ∷ listed_one (codes "/old") 13
    ∷ []

-- The nanoseconds that the events take.
abbrev elapsed : Event → ℕ
elapsed (slept ms) = ms * 1_000_000
elapsed (inspected id info) = 1
elapsed _ = 0

abbrev clock_of : Trace → ℕ
clock_of [] = 0
clock_of (e ∷ t) = clock_of t + elapsed e

abbrev up : Info
up = record { is_running = true; health = none; restart_count = 0; image = codes "nginx:1" }

-- Every call succeeds; a new container has the length of the history as its id, above 100.
abbrev engine : Docker
engine = record {
  pull = λ t i. true;
  create = λ t s. some (length t + 100);
  start = λ t i. true;
  stop = λ t i. true;
  kill = λ t i. true;
  remove = λ t i. true;
  rename = λ t i n. true;
  inspect = λ t i. some up;
  list = λ t n. some present;
  make_network = λ t n d. true;
  make_volume = λ t n d. true;
  random_bytes = λ t. codes "abcdef";
  clock = clock_of;
  done_wins = λ t. false;
  is_cancelled = λ t. false;
  free_bytes = λ t. none;
}

-- Its listings fail.
abbrev deaf : Docker
deaf = record engine { list = λ t n. none }

engine-ClockLaws : ClockLaws engine
engine-ClockLaws = record {
  ticks = λ e t. omega arith;
  sleeps = λ ms t. omega arith;
  inspects = λ id info t. omega arith;
}

cleanup_stale_containers-safe_example :
    Ran
      (Obeys (removes_only present (IsStale stack)))
      []
      (cleanup_stale_containers engine stack []).1
cleanup_stale_containers-safe_example = cleanup_stale_containers-safe engine stack present [] refl

force_remove-safe_example :
    Ran
      (Obeys (removes_only present (IsForced stack)))
      []
      (force_remove_all_stack_containers engine stack []).1
force_remove-safe_example = force_remove-safe engine stack present [] refl

replace_replica-RollsBack_example :
    RollsBack engine (0 ∷ []) 1 [] (replace_replica engine stack web (codes "web-2") (0 ∷ []) 1 [])
replace_replica-RollsBack_example =
    replace_replica-RollsBack engine stack (codes "web-2") (0 ∷ []) 1 web []

execute_rolling-scope_example :
    Ran
      (Obeys (deploys engine (IsReplicaName stack.containers)))
      []
      (execute_rolling engine stack []).1
execute_rolling-scope_example = execute_rolling-scope engine stack []

execute_canary-fails_example : (execute_canary engine stack []).0 ≢ none
execute_canary-fails_example = execute_canary-fails engine engine-ClockLaws stack []

post_deploy_verify-unlisted_example : (post_deploy_verify deaf stack []).0 ≡ none
post_deploy_verify-unlisted_example =
    post_deploy_verify-unlisted deaf stack [] (λ u. refl) (λ u. refl)

decide-keeps_old_example : Ran (Obeys (keeps_old engine)) [] (decide engine stack []).1
decide-keeps_old_example = decide-keeps_old engine stack []

abbrev backup : Backup
backup = record {
  canonical_name = codes "web-1";
  id = 11;
  retired_name = some (codes "web-1-retired-0");
}

settle-restores_example :
    ((settle engine stack [] (swap_failed (backup ∷ []) (recreate (codes "web-1"))) []).0
      ≡ some (recreate (codes "web-1")))
    × All
        (λ (b : Backup).
          Any
            (StartOf b.id)
            (settle engine stack [] (swap_failed (backup ∷ []) (recreate (codes "web-1"))) []).1)
        (backup ∷ [])
settle-restores_example =
    settle-restores engine stack [] (backup ∷ []) (recreate (codes "web-1")) []

run_succeeds : (execute_rolling engine stack []).0 ≡ none
unfolding execute_rolling ◌>>=◌ pure pull_image replica_count replace_replica should_probe
    create_and_start inspect_container
run_succeeds = refl

execute_rolling-Deployed_example :
    All
      (λ c.
        (k : ℕ)
        → k < replica_count c
        → Deployed stack c (replica_name c k) (execute_rolling engine stack []).1)
      stack.containers
execute_rolling-Deployed_example = execute_rolling-Deployed engine stack [] run_succeeds

check_succeeds : (post_deploy_verify engine stack []).0 ≡ none
unfolding post_deploy_verify ◌>>=◌ cancelled list_containers all_issues expected_names
    instance_names contains text_eq pure state_of canonical_container_name before first_name
    trim_slash strip_prefix has_prefix strip_suffix decimal replica_count replica_name distinct
    id_of inspect_container report sleep is_generated_suffix_segment split_last
check_succeeds = refl

post_deploy_verify-alive_example :
    (cs : List Container) × Any (λ e. e ≡ listed (some cs)) (post_deploy_verify engine stack []).1
    × All (IsAlive cs) (expected_names stack)
post_deploy_verify-alive_example =
    post_deploy_verify-alive engine stack [] (λ u. (present, refl)) check_succeeds

execute-lifecycle_example :
    logs (execute engine stack []).1
    ≡ outcome_event (execute engine stack []).0 ∷ event_started ∷ []
unfolding logs
execute-lifecycle_example = execute-lifecycle engine stack []

deployment_succeeds : (execute engine stack []).0 ≡ none
unfolding execute execute_body ◌>>=◌ validate valid_container_name contains_any has_rune
    image_with_tag low_on_disk run_strategy text_eq pure execute_rolling pull_image replica_count
    replica_name replace_replica should_probe create_and_start inspect_container post_deploy_verify
    cancelled contains decimal has_prefix strip_prefix cleanup_stale_containers first_name
    trim_slash over decision_for cleanup_decision for_each stop_and_remove_container stop_container
    remove_container list_containers log report sleep all_issues distinct expected_names
    instance_names id_of state_of canonical_container_name is_generated_suffix_segment before
    split_last strip_suffix
deployment_succeeds = refl

execute-Deployed_example : AllDeployed stack (execute engine stack []).1
execute-Deployed_example = execute-Deployed engine stack [] refl deployment_succeeds

wait_green-enough_example :
    wait_green engine (wait_rounds + 4) (engine.clock [] + seconds 30) 11 []
    ≡ wait_green engine wait_rounds (engine.clock [] + seconds 30) 11 []
wait_green-enough_example = wait_green-enough engine engine-ClockLaws 4 11 []
