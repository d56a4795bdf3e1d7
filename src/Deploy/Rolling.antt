-- ===== src/Deploy/Rolling.antt =====
-- deploy/rolling.go: the container lookup, the replacement of one replica, the rollback and the
-- whole strategy. What the code writes to the log, and the texts of its progress messages, are left
-- out; a progress message is an event with its status.
pub mod Swap
pub mod Replica
pub mod Scope
pub mod Success
use mathlib.Core.List.{reverse}
use lattice_runner.Base.{
  ℕ, zero, suc, ◌+◌, Bool, true, false, not, ◌&&◌, ◌||◌, ltb, ◌==◌, Option, none, some, List, [],
  ◌∷◌, ◌++◌, Text, codes, text_eq, if◌then◌else◌, is_nil, length, get_elem?,
}
use lattice_runner.Names.{dash, is_canonical_variant, generate_suffix}
use lattice_runner.Docker.{
  Info, Container, EngineSpec, Trace, Docker, M, ◌>>=◌, ◌>>◌, pure, sleep, report, pull_image,
  create_and_start, inspect_container, rename_container, list_containers, trim_slash, running,
  find_container_by_name, stop_and_remove_container, stop_or_kill, for_each,
}
use lattice_runner.Deploy.Spec.{
  ContainerSpec, DeploymentSpec, image_ref, replica_count, replica_name, engine_spec,
}

-- containerSnapshot; `old_id` is `none` for the empty id.
pub record Snapshot : Type 0 where
  pub name : Text
  pub old_image : Text
  pub spec_idx : ℕ
  pub replica : ℕ
  pub old_id : Option ℕ

-- oldContainer
pub record OldContainer : Type 0 where
  pub id : ℕ
  pub name : Text

pub data RollError : Type 0 where
  pull_failed probe_not_started probe_not_running create_failed not_running : Text → RollError

abbrev pub deploying : Text
deploying = codes "deploying"

-- The first name of a container that is the canonical name or a variant of it.
unfoldable pub matching_name : Text → List Text → Option Text
matching_name canonical [] = none
matching_name canonical (n ∷ ns) =
    if text_eq (trim_slash n) canonical || is_canonical_variant canonical (trim_slash n)
    then some (trim_slash n)
    else matching_name canonical ns

abbrev cons_match : Option Text → ℕ → List OldContainer → List OldContainer
cons_match none id rest = rest
cons_match (some n) id rest = record { id = id; name = n } ∷ rest

unfoldable pub matches : Text → List Container → List OldContainer
unfolding matching_name
matches canonical [] = []
matches canonical (c ∷ cs) =
    cons_match (matching_name canonical c.names) c.id (matches canonical cs)

matches_of : Text → Option (List Container) → List OldContainer
matches_of canonical none = []
matches_of canonical (some cs) = matches canonical cs

unfoldable pub should_probe : ℕ → ℕ → ℕ → Bool
should_probe port_mappings old_containers volumes =
    ltb 0 port_mappings && ltb 0 old_containers && volumes == 0

-- appendIdx
unfoldable pub append_idx : List ℕ → ℕ → List ℕ
append_idx base idx = base ++ idx ∷ []

-- How the loops over the replicas end: with the snapshots that were replaced and the index of the
-- next one, or with an error, after its rollback.
pub data Progress : Type 0 where
  went_on : List ℕ → ℕ → Progress
  gave_up : RollError → Progress

not_new : Option ℕ → Bool
not_new none = false
not_new (some id) = true

-- How the replacement of one replica ends: with a running container, or with an error and the
-- snapshots to roll back.
pub data Outcome : Type 0 where
  replaced : ℕ → Outcome
  abandoned : List ℕ → RollError → Outcome

first_id : List OldContainer → Option ℕ
first_id [] = none
first_id (o ∷ os) = some o.id

-- The bytes that GenerateSuffix reads.
pub random_suffix : Docker → M Text
random_suffix d t = (generate_suffix (d.random_bytes t), t)

module _ (d : Docker) where
  unfoldable pub find_all_matching_containers : Text → M (List OldContainer)
  unfolding matches_of
  find_all_matching_containers canonical = do
    cs ← list_containers d []
    pure (matches_of canonical cs)

  or_first_match : Text → Option ℕ → M (Option ℕ)
  or_first_match canonical (some id) = pure (some id)
  or_first_match canonical none = do
    olds ← find_all_matching_containers canonical
    pure (first_id olds)

  -- The id that FindCanonicalContainer returns.
  unfoldable pub find_canonical_container : Text → M (Option ℕ)
  unfolding or_first_match first_id
  find_canonical_container canonical = do
    found ← find_container_by_name d canonical
    or_first_match canonical found

  image_of : Option Info → Text → Text
  image_of none image = image
  image_of (some info) image = info.image

  old_image : Option ℕ → Text → M Text
  old_image none image = pure image
  old_image (some id) image = do info ← inspect_container d id; pure (image_of info image)

  -- The first loop of executeRolling, for one replica.
  take_snapshot : ℕ → ContainerSpec → ℕ → M Snapshot
  take_snapshot i c r = do
    old ← find_canonical_container (replica_name c r)
    image ← old_image old (image_ref c)
    pure (record {
      name = replica_name c r;
      old_image = image;
      spec_idx = i;
      replica = r;
      old_id = old;
    })

  snapshot_replicas : ℕ → ContainerSpec → ℕ → ℕ → M (List Snapshot)
  snapshot_replicas i c r zero = pure []
  snapshot_replicas i c r (suc n) = do
    s ← take_snapshot i c r
    rest ← snapshot_replicas i c (r + 1) n
    pure (s ∷ rest)

  unfoldable pub take_snapshots : ℕ → List ContainerSpec → M (List Snapshot)
  unfolding snapshot_replicas take_snapshot old_image image_of
  take_snapshots i [] = pure []
  take_snapshots i (c ∷ cs) = do
    here ← snapshot_replicas i c 0 (replica_count c)
    rest ← take_snapshots (i + 1) cs
    pure (here ++ rest)

  pub remove_olds : List OldContainer → M (Unit {0})
  remove_olds = for_each (λ (o : OldContainer). stop_and_remove_container d o.id >> pure tt)

  stop_olds : List OldContainer → M (Unit {0})
  stop_olds = for_each (λ (o : OldContainer). stop_or_kill d o.id)

  rename_to : Text → Option ℕ → M (Unit {0})
  rename_to name none = pure tt
  rename_to name (some id) = do rename_container d id name; pure tt

  module _ (spec : DeploymentSpec) where
    -- The container that a rollback creates: the old image, which carries its tag.
    unfoldable pub restored_spec : Snapshot → ContainerSpec → Text → EngineSpec
    restored_spec snap c suffix =
        let new = engine_spec spec c (snap.name ++ dash ∷ suffix) in
        record new { image = snap.old_image; tag = [] }

    restore : Snapshot → ContainerSpec → M (Unit {0})
    restore snap c = do
      report deploying
      pull_image d snap.old_image
      olds ← find_all_matching_containers snap.name
      remove_olds olds
      suffix ← random_suffix d
      made ← create_and_start d (restored_spec snap c suffix)
      rename_to snap.name made

    discard : Snapshot → M (Unit {0})
    discard snap = do
      report deploying
      olds ← find_all_matching_containers snap.name
      remove_olds olds

    -- An index out of range, which would be a panic in Go, changes nothing here.
    restore_at : Snapshot → Option ContainerSpec → M (Unit {0})
    restore_at snap none = pure tt
    restore_at snap (some c) = if not_new snap.old_id then restore snap c else discard snap

    rollback_one : Option Snapshot → M (Unit {0})
    rollback_one none = pure tt
    rollback_one (some snap) = restore_at snap (get_elem? spec.containers snap.spec_idx)

    unfoldable pub rollback_containers : List Snapshot → List ℕ → M (Unit {0})
    unfolding rollback_one restore_at restore discard remove_olds rename_to not_new
    rollback_containers snapshots [] = pure tt
    rollback_containers snapshots (u ∷ us) = do
      report (codes "failed")
      for_each (λ (idx : ℕ). rollback_one (get_elem? snapshots idx)) (reverse (u ∷ us))

    -- The new container is checked before the old ones are removed.
    finish_swap : Text → List OldContainer → ℕ → List ℕ → List ℕ → Option Info → M Outcome
    finish_swap name olds id updated rollback info =
        if running info
        then (do remove_olds olds; rename_container d id name; report deploying; pure (replaced id))
        else (report deploying >> pure (abandoned rollback (not_running name)))

    check_new : Text → List OldContainer → List ℕ → ℕ → List ℕ → Option ℕ → M Outcome
    check_new name olds updated idx on_error none =
        report deploying >> pure (abandoned on_error (create_failed name))
    check_new name olds updated idx on_error (some id) = do
      info ← inspect_container d id
      finish_swap name olds id updated (append_idx updated idx) info

    -- Stop the old containers and create the new one; `on_error` is the rollback where that fails.
    swap : ContainerSpec → Text → Text → List OldContainer → List ℕ → ℕ → List ℕ → M Outcome
    swap c name deploy_name olds updated idx on_error = do
      stop_olds olds
      made ← create_and_start d (engine_spec spec c deploy_name)
      check_new name olds updated idx on_error made

    unfoldable pub probe_spec : ContainerSpec → Text → EngineSpec
    probe_spec c deploy_name =
        let new = engine_spec spec c (deploy_name ++ codes "-probe") in
        record new { port_mappings = []; restart_policy = codes "no" }

    judge_probe :
        ContainerSpec → Text → Text → List OldContainer → List ℕ → ℕ → ℕ → Option Info → M Outcome
    judge_probe c name deploy_name olds updated idx probe_id info =
        if running info
        then (do
          stop_and_remove_container d probe_id
          report deploying
          swap c name deploy_name olds updated idx (append_idx updated idx))
        else (do
          stop_and_remove_container d probe_id
          report deploying
          pure (abandoned updated (probe_not_running name)))

    after_probe :
        ContainerSpec → Text → Text → List OldContainer → List ℕ → ℕ → Option ℕ → M Outcome
    after_probe c name deploy_name olds updated idx none =
        report deploying >> pure (abandoned updated (probe_not_started name))
    after_probe c name deploy_name olds updated idx (some probe_id) = do
      sleep 2000
      info ← inspect_container d probe_id
      judge_probe c name deploy_name olds updated idx probe_id info

    probed_swap : ContainerSpec → Text → Text → List OldContainer → List ℕ → ℕ → M Outcome
    probed_swap c name deploy_name olds updated idx = do
      report deploying
      probe ← create_and_start d (probe_spec c deploy_name)
      after_probe c name deploy_name olds updated idx probe

    -- The body of the inner loop of executeRolling, up to its rollback.
    unfoldable pub replace_replica : ContainerSpec → Text → List ℕ → ℕ → M Outcome
    unfolding probed_swap after_probe judge_probe swap check_new finish_swap stop_olds remove_olds
    replace_replica c name updated idx = do
      olds ← find_all_matching_containers name
      suffix ← random_suffix d
      report deploying
      if should_probe (length c.port_mappings) (length olds) (length c.volumes)
          then probed_swap c name (name ++ dash ∷ suffix) olds updated idx
          else swap c name (name ++ dash ∷ suffix) olds updated idx
              (if is_nil olds then updated else append_idx updated idx)

    fail_rolling : List Snapshot → List ℕ → RollError → M Progress
    fail_rolling snapshots rollback e = do rollback_containers snapshots rollback; pure (gave_up e)

    after_replica : List Snapshot → Outcome → M Progress → M Progress
    after_replica snapshots (replaced id) rest = rest
    after_replica snapshots (abandoned rollback e) rest = fail_rolling snapshots rollback e

    -- What the loops carry: the snapshots of the replicas that were replaced, and the next one.
    pub roll_replicas : List Snapshot → ContainerSpec → ℕ → ℕ → List ℕ → ℕ → M Progress
    roll_replicas snapshots c r zero updated idx = pure (went_on updated idx)
    roll_replicas snapshots c r (suc n) updated idx = do
      outcome ← replace_replica c (replica_name c r) updated idx
      after_replica snapshots outcome
          (roll_replicas snapshots c (r + 1) n (append_idx updated idx) (idx + 1))

    after_pull : Bool → List Snapshot → ContainerSpec → List ℕ → ℕ → M Progress
    after_pull false snapshots c updated idx =
        fail_rolling snapshots updated (pull_failed (image_ref c))
    after_pull true snapshots c updated idx = do
      report deploying
      roll_replicas snapshots c 0 (replica_count c) updated idx

    roll_container : List Snapshot → ContainerSpec → List ℕ → ℕ → M Progress
    roll_container snapshots c updated idx = do
      report deploying
      ok ← pull_image d (image_ref c)
      after_pull ok snapshots c updated idx

    roll_next : (List ℕ → ℕ → M Progress) → Progress → M Progress
    roll_next rest (went_on updated idx) = rest updated idx
    roll_next rest (gave_up e) = pure (gave_up e)

    pub roll_containers : List Snapshot → List ContainerSpec → List ℕ → ℕ → M Progress
    roll_containers snapshots [] updated idx = pure (went_on updated idx)
    roll_containers snapshots (c ∷ cs) updated idx = do
      p ← roll_container snapshots c updated idx
      roll_next (roll_containers snapshots cs) p

    error_of : Progress → Option RollError
    error_of (went_on updated idx) = none
    error_of (gave_up e) = some e

    -- `none` is Go's nil error.
    unfoldable pub execute_rolling : M (Option RollError)
    unfolding roll_containers roll_next roll_container after_pull roll_replicas after_replica
        fail_rolling error_of
    execute_rolling = do
      snapshots ← take_snapshots 0 spec.containers
      p ← roll_containers snapshots spec.containers [] 0
      pure (error_of p)
