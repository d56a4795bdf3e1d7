-- ===== src/Deploy/BlueGreen.antt =====
-- deploy/bluegreen.go: green copies beside the running containers, their health checks, and the
-- swap, which keeps the old (blue) containers until every new one is found running.
pub mod Backups
pub mod Restore
pub mod Calls
pub mod Wait
use lattice_runner.Base.{
  ℕ, zero, suc, ◌+◌, ◌*◌, Bool, true, false, not, ltb, ◌==◌, ◌||◌, ◌&&◌, Option, none, some, List,
  [], ◌∷◌, ◌++◌, Text, codes, text_eq, if◌then◌else◌, is_nil, decimal,
}
use lattice_runner.Names.{dash}
use lattice_runner.Docker.{
  Info, EngineSpec, Trace, Docker, M, ◌>>=◌, ◌>>◌, pure, sleep, report, now, pull_image,
  create_and_start, start_container, inspect_container, stop_container, remove_container,
  rename_container, running, find_container_by_name, stop_and_remove_container, for_each,
}
use lattice_runner.Deploy.Spec.{
  ContainerSpec, DeploymentSpec, image_ref, replica_count, replica_name, engine_spec,
}
use lattice_runner.Deploy.Rolling.{deploying}
use lattice_runner.Deploy.Canary.{seconds}

pub data BlueGreenError : Type 0 where
  pull_green create_green green_not_running green_not_healthy : Text → BlueGreenError
  recreate final_not_running : Text → BlueGreenError

-- greenIDs, in the order in which the containers were made.
abbrev pub Greens : Type 0
Greens = List (Text × ℕ)

put_green : Text → ℕ → Greens → Greens
put_green name id [] = (name, id) ∷ []
put_green name id ((n, i) ∷ gs) =
    if text_eq n name then (name, id) ∷ gs else (n, i) ∷ put_green name id gs

green_of : Text → Greens → Option ℕ
green_of name [] = none
green_of name ((n, i) ∷ gs) = if text_eq n name then some i else green_of name gs

-- blueBackup; `retired_name` is `none` where the rename failed.
pub record Backup : Type 0 where
  pub canonical_name : Text
  pub id : ℕ
  pub retired_name : Option Text

pub data Started : Type 0 where
  greens_up : Greens → Started
  start_failed : BlueGreenError → Started

pub data Swapped : Type 0 where
  all_swapped : List Backup → Swapped
  swap_failed : List Backup → BlueGreenError → Swapped

-- How the first three phases end.
pub data Decision : Type 0 where
  failed_early : BlueGreenError → Decision
  decided : Greens → Swapped → Decision

unfoldable pub needs_green : ContainerSpec → Bool
needs_green c = is_nil c.volumes

is_healthy : Option Text → Bool
is_healthy none = true
is_healthy (some status) = text_eq status (codes "healthy")

health_of : Option Info → Option Text
health_of none = none
health_of (some info) = info.health

-- Running, and healthy where there is a health check.
good_enough : Option Info → Bool
good_enough info = if running info then is_healthy (health_of info) else false

-- The window of 30 seconds allows 15 rounds of two seconds.
abbrev pub wait_rounds : ℕ
wait_rounds = 16

module _ (d : Docker) where
  stop_and_drop : ℕ → M (Unit {0})
  stop_and_drop id = do stop_container d id; remove_container d id; pure tt

  unfoldable pub cleanup_green : Greens → M (Unit {0})
  unfolding stop_and_drop
  cleanup_green = for_each (λ (g : Text × ℕ). stop_and_drop g.1)

  -- The wait of phase 2 for one container.
  unfoldable pub wait_green : ℕ → ℕ → ℕ → M (Unit {0})
  unfolding good_enough is_healthy health_of
  wait_green zero deadline id = pure tt
  wait_green (suc n) deadline id = do
    t ← now d
    if ltb t deadline
        then (do
          info ← inspect_container d id
          if good_enough info then pure tt else (sleep 2000 >> wait_green n deadline id))
        else pure tt

  module _ (spec : DeploymentSpec) where
    -- No ports and no aliases while blue is live.
    unfoldable pub green_spec : ContainerSpec → Text → EngineSpec
    green_spec c name =
        let new = engine_spec spec c (name ++ codes "-green") in
        record new { port_mappings = []; network_aliases = [] }

    fail_start : Greens → BlueGreenError → M Started
    fail_start greens e = do cleanup_green greens; pure (start_failed e)

    then_started : (Greens → M Started) → Started → M Started
    then_started rest (greens_up greens) = rest greens
    then_started rest (start_failed e) = pure (start_failed e)

    green_made : Text → Greens → Option ℕ → M Started
    green_made name greens none = fail_start greens (create_green name)
    green_made name greens (some id) = do
      report deploying
      pure (greens_up (put_green name id greens))

    start_replicas : ContainerSpec → ℕ → ℕ → Greens → M Started
    start_replicas c r zero greens = pure (greens_up greens)
    start_replicas c r (suc n) greens = do
      made ← create_and_start d (green_spec c (replica_name c r))
      s ← green_made (replica_name c r) greens made
      then_started (start_replicas c (r + 1) n) s

    green_pulled : Bool → ContainerSpec → Greens → M Started
    green_pulled false c greens = fail_start greens (pull_green (image_ref c))
    green_pulled true c greens =
        if needs_green c
        then start_replicas c 0 (replica_count c) greens
        else (report deploying >> pure (greens_up greens))

    -- Phase 1.
    start_greens : List ContainerSpec → Greens → M Started
    start_greens [] greens = pure (greens_up greens)
    start_greens (c ∷ cs) greens = do
      report deploying
      ok ← pull_image d (image_ref c)
      s ← green_pulled ok c greens
      then_started (start_greens cs) s

    fail_check : Greens → BlueGreenError → M (Option BlueGreenError)
    fail_check greens e = do report (codes "failed"); cleanup_green greens; pure (some e)

    judge_green :
        Greens → Text → Option Info → M (Option BlueGreenError) → M (Option BlueGreenError)
    judge_green greens name info rest =
        if running info
        then if is_healthy (health_of info)
          then rest
          else fail_check greens (green_not_healthy name)
        else fail_check greens (green_not_running name)

    -- Phase 2, for the greens that are left.
    check_greens : Greens → Greens → M (Option BlueGreenError)
    check_greens greens [] = pure none
    check_greens greens ((name, id) ∷ gs) = do
      t ← now d
      wait_green wait_rounds (t + seconds 30) id
      info ← inspect_container d id
      judge_green greens name info (check_greens greens gs)

    retire : Text → List Backup → Option ℕ → M (List Backup)
    retire name backups none = pure backups
    retire name backups (some id) = do
      stamp ← now d
      let retired = name ++ codes "-retired-" ++ decimal stamp
      ok ← rename_container d id retired
      stop_container d id
      pure (
          backups
          ++ record {
            canonical_name = name;
            id = id;
            retired_name = if ok then some retired else none;
          }
            ∷ [])

    drop_green : Option ℕ → M (Unit {0})
    drop_green none = pure tt
    drop_green (some id) = stop_and_drop id

    verify_final : Text → List Backup → ℕ → Option Info → M Swapped → M Swapped
    verify_final name backups id info rest =
        if running info then (report deploying >> rest) else (do
          stop_and_remove_container d id
          pure (swap_failed backups (final_not_running name)))

    final_made : Text → List Backup → Option ℕ → M Swapped → M Swapped
    final_made name backups none rest = pure (swap_failed backups (recreate name))
    final_made name backups (some id) rest = do
      info ← inspect_container d id
      verify_final name backups id info rest

    swap_replicas :
        Greens → (List Backup → M Swapped) → ContainerSpec → ℕ → ℕ → List Backup → M Swapped
    swap_replicas greens rest c r zero backups = rest backups
    swap_replicas greens rest c r (suc n) backups = do
      report deploying
      blue ← find_container_by_name d (replica_name c r)
      backups' ← retire (replica_name c r) backups blue
      drop_green (green_of (replica_name c r) greens)
      made ← create_and_start d (engine_spec spec c (replica_name c r))
      final_made (replica_name c r) backups' made (swap_replicas greens rest c (r + 1) n backups')

    -- Phase 3.
    swap_all : Greens → List ContainerSpec → List Backup → M Swapped
    swap_all greens [] backups = pure (all_swapped backups)
    swap_all greens (c ∷ cs) backups =
        swap_replicas greens (swap_all greens cs) c 0 (replica_count c) backups

    drop_partial : ℕ → Option ℕ → M (Unit {0})
    drop_partial blue none = pure tt
    drop_partial blue (some id) =
        if id == blue then pure tt else (stop_and_remove_container d id >> pure tt)

    rename_back : Backup → Option Text → M (Unit {0})
    rename_back b none = pure tt
    rename_back b (some retired) = do rename_container d b.id b.canonical_name; pure tt

    restore_blue : Backup → M (Unit {0})
    restore_blue b = do
      found ← find_container_by_name d b.canonical_name
      drop_partial b.id found
      rename_back b b.retired_name
      start_container d b.id
      pure tt

    remove_blue : Backup → M (Unit {0})
    remove_blue b = do remove_container d b.id; pure tt

    unfoldable pub settle : Greens → Swapped → M (Option BlueGreenError)
    unfolding restore_blue remove_blue drop_partial rename_back
    settle greens (all_swapped backups) = do for_each remove_blue backups; pure none
    settle greens (swap_failed backups e) = do
      for_each restore_blue backups
      cleanup_green greens
      pure (some e)

    after_check : Greens → Option BlueGreenError → M Decision
    after_check greens (some e) = pure (failed_early e)
    after_check greens none = do
      report deploying
      s ← swap_all greens spec.containers []
      pure (decided greens s)

    after_start : Started → M Decision
    after_start (start_failed e) = pure (failed_early e)
    after_start (greens_up greens) = do
      report deploying
      e ← check_greens greens greens
      after_check greens e

    -- Phases 1 to 3, up to the point where the blue containers are given up or brought back.
    unfoldable pub decide : M Decision
    unfolding start_greens then_started green_pulled start_replicas green_made fail_start
        after_start check_greens judge_green fail_check after_check swap_all swap_replicas retire
        drop_green stop_and_drop final_made verify_final put_green green_of is_healthy health_of
    decide = do report deploying; s ← start_greens spec.containers []; after_start s

    carry_out : Decision → M (Option BlueGreenError)
    carry_out (failed_early e) = pure (some e)
    carry_out (decided greens s) = settle greens s

    -- `none` is Go's nil error.
    unfoldable pub execute_blue_green : M (Option BlueGreenError)
    unfolding carry_out
    execute_blue_green = do c ← decide; carry_out c
