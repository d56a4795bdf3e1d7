-- ===== src/Deploy/Rolling/Scope.antt =====
-- Which containers a rolling deployment may touch.
use mathlib.Core.List.{reverse}
use lattice_runner.Base.{
  ℕ, zero, suc, ◌+◌, ◌<◌, ◌≡◌, inl, inr, refl, Bool, true, false, Option, none, some, List, [], ◌∷◌,
  Text, codes, get_elem?, All, Any, arith, All-map, All-append,
}
use lattice_runner.Docker.{
  Trace, Docker, M, ◌>>=◌, pure, Obeys, Ran, Emits, ran, Always, Emits-bind, Emits-bind_of,
  Emits-if, Emits-pure, Emits-rename, Emits-report, Emits-inspect, Emits-pull, Emits-find,
  Emits-for_each,
}
use lattice_runner.Deploy.Spec.{
  ContainerSpec, DeploymentSpec, image_ref, replica_count, replica_name,
}
use lattice_runner.Deploy.Rolling.{
  Snapshot, RollError, deploying, append_idx, Outcome, replaced, abandoned,
  find_canonical_container, Progress, went_on, gave_up, rename_to, restore, discard, restore_at,
  rollback_one, rollback_containers, fail_rolling, after_replica, roll_replicas, after_pull,
  roll_container, roll_next, roll_containers, execute_rolling, take_snapshot, take_snapshots,
  snapshot_replicas, old_image, or_first_match, not_new,
}
use lattice_runner.Deploy.Rolling.Replica.{
  Made, deploys, Emits-random, Emits-find_all, with_olds, Emits-remove_olds, with-Made,
  replace_replica-Emits,
}

module _ (d : Docker) (spec : DeploymentSpec) (Named : Text → Type 0) where
  abbrev May : {A : Type 0} → M A → Type 0
  May m = Emits (deploys d Named) m

  module _ (c : ContainerSpec) (snap : Snapshot) (named : Named snap.name) where
    rename_to-Emits :
        (made : Option ℕ)
        → ((id : ℕ) → made ≡ some id → Made d id)
        → May (rename_to d snap.name made)
    unfolding rename_to
    rename_to-Emits none h = Emits-pure _
    rename_to-Emits (some id) h =
        Emits-bind (Emits-rename d id snap.name (h id refl, named)) (λ _. Emits-pure _)

    restore-Emits : May (restore d spec snap c)
    unfolding restore
    restore-Emits = Emits-bind (Emits-report deploying) λ _.
        Emits-bind (Emits-pull d snap.old_image) λ _.
          with_olds d spec Named snap.name named λ olds old.
            Emits-bind (Emits-remove_olds d spec Named olds old) λ _.
              Emits-bind (Emits-random d spec Named)
                λ suffix. with-Made d spec Named _ rename_to-Emits

    discard-Emits : May (discard d spec snap)
    unfolding discard
    discard-Emits = Emits-bind (Emits-report deploying) λ _.
        with_olds d spec Named snap.name named λ olds old. Emits-remove_olds d spec Named olds old

  abbrev SnapNamed : Option Snapshot → Type 0
  SnapNamed none = Unit
  SnapNamed (some snap) = Named snap.name

  restore_at-Emits :
      (snap : Snapshot) (c : Option ContainerSpec)
      → Named snap.name
      → May (restore_at d spec snap c)
  unfolding restore_at
  restore_at-Emits snap none h = Emits-pure _
  restore_at-Emits snap (some c) h =
      Emits-if (not_new snap.old_id) (restore-Emits c snap h) (discard-Emits c snap h)

  rollback_one-Emits : (o : Option Snapshot) → SnapNamed o → May (rollback_one d spec o)
  unfolding rollback_one
  rollback_one-Emits none h = Emits-pure _
  rollback_one-Emits (some snap) h = restore_at-Emits snap _ h

  snap_at :
      (snapshots : List Snapshot) (i : ℕ)
      → All (λ (s : Snapshot). Named s.name) snapshots
      → SnapNamed (get_elem? snapshots i)
  snap_at [] i h = tt
  snap_at (s ∷ ss) zero h = h.0
  snap_at (s ∷ ss) (suc i) h = snap_at ss i h.1

  All-true : (xs : List ℕ) → All (λ (i : ℕ). Unit {0}) xs
  All-true [] = tt
  All-true (x ∷ xs) = (tt, All-true xs)

  rollback_containers-Emits :
      (snapshots : List Snapshot) (us : List ℕ)
      → All (λ (s : Snapshot). Named s.name) snapshots
      → May (rollback_containers d spec snapshots us)
  unfolding rollback_containers
  rollback_containers-Emits snapshots [] h = Emits-pure _
  rollback_containers-Emits snapshots (u ∷ us) h = Emits-bind (Emits-report (codes "failed")) λ _.
      Emits-for_each _ _ (All-true (reverse (u ∷ us)))
        (λ i _. rollback_one-Emits (get_elem? snapshots i) (snap_at snapshots i h))

  module _ (snapshots : List Snapshot)
      (snap_names : All (λ (s : Snapshot). Named s.name) snapshots) where
    fail_rolling-Emits : (rb : List ℕ) (e : RollError) → May (fail_rolling d spec snapshots rb e)
    unfolding fail_rolling
    fail_rolling-Emits rb e =
        Emits-bind (rollback_containers-Emits snapshots rb snap_names) (λ _. Emits-pure _)

    after_replica-Emits :
        (o : Outcome) (rest : M Progress) → May rest → May (after_replica d spec snapshots o rest)
    unfolding after_replica
    after_replica-Emits (replaced id) rest h = h
    after_replica-Emits (abandoned rb e) rest h = fail_rolling-Emits rb e

    pub roll_replicas-Emits :
        (c : ContainerSpec) (r n : ℕ) (updated : List ℕ) (idx : ℕ)
        → ((k : ℕ) → k < r + n → Named (replica_name c k))
        → May (roll_replicas d spec snapshots c r n updated idx)
    unfolding roll_replicas
    roll_replicas-Emits c r zero updated idx h = Emits-pure _
    roll_replicas-Emits c r (suc n) updated idx h =
        Emits-bind (replace_replica-Emits d spec Named c _ updated idx (h r (omega arith))) λ o.
          after_replica-Emits o _ (
            roll_replicas-Emits c (r + 1) n (append_idx updated idx) (idx + 1)
              (λ k below. h k (omega arith)))

    after_pull-Emits :
        (ok : Bool) (c : ContainerSpec) (updated : List ℕ) (idx : ℕ)
        → ((k : ℕ) → k < replica_count c → Named (replica_name c k))
        → May (after_pull d spec ok snapshots c updated idx)
    unfolding after_pull
    after_pull-Emits false c updated idx h = fail_rolling-Emits updated _
    after_pull-Emits true c updated idx h =
        Emits-bind (Emits-report deploying)
          λ _. roll_replicas-Emits c 0 (replica_count c) updated idx (λ k below. h k (omega arith))

    roll_container-Emits :
        (c : ContainerSpec) (updated : List ℕ) (idx : ℕ)
        → ((k : ℕ) → k < replica_count c → Named (replica_name c k))
        → May (roll_container d spec snapshots c updated idx)
    unfolding roll_container
    roll_container-Emits c updated idx h =
        Emits-bind (Emits-report deploying)
          λ _. Emits-bind (Emits-pull d (image_ref c)) λ ok. after_pull-Emits ok c updated idx h

    roll_next-Emits :
        (rest : List ℕ → ℕ → M Progress) (p : Progress)
        → ((updated : List ℕ) (idx : ℕ) → May (rest updated idx))
        → May (roll_next d spec rest p)
    unfolding roll_next
    roll_next-Emits rest (went_on updated idx) h = h updated idx
    roll_next-Emits rest (gave_up e) h = Emits-pure _

    pub roll_containers-Emits :
        (cs : List ContainerSpec) (updated : List ℕ) (idx : ℕ)
        → All (λ c. (k : ℕ) → k < replica_count c → Named (replica_name c k)) cs
        → May (roll_containers d spec snapshots cs updated idx)
    unfolding roll_containers
    roll_containers-Emits [] updated idx h = Emits-pure _
    roll_containers-Emits (c ∷ cs) updated idx h =
        Emits-bind (roll_container-Emits c updated idx h.0)
          λ p. roll_next-Emits _ p (λ u i. roll_containers-Emits cs u i h.1)

  -- The lookups of the first loop change nothing.
  find_canonical-Emits : (name : Text) → May (find_canonical_container d name)
  unfolding find_canonical_container
  find_canonical-Emits name = Emits-bind (Emits-find d name) (λ o. first_match o)
    where
      first_match : (o : Option ℕ) → May (or_first_match d name o)
      first_match none = Emits-bind (Emits-find_all d spec Named name) (λ _. Emits-pure _)
      first_match (some id) = Emits-pure _

  old_image-Emits : (o : Option ℕ) (image : Text) → May (old_image d o image)
  unfolding old_image
  old_image-Emits none image = Emits-pure _
  old_image-Emits (some id) image = Emits-bind (Emits-inspect d id) (λ _. Emits-pure _)

  snapshot_replicas-Emits :
      (i : ℕ) (c : ContainerSpec) (r n : ℕ) → May (snapshot_replicas d i c r n)
  unfolding snapshot_replicas take_snapshot
  snapshot_replicas-Emits i c r zero = Emits-pure _
  snapshot_replicas-Emits i c r (suc n) =
      Emits-bind
        (Emits-bind (find_canonical-Emits _)
          λ old. Emits-bind (old_image-Emits old _) λ _. Emits-pure _)
        λ s. Emits-bind (snapshot_replicas-Emits i c (r + 1) n) λ _. Emits-pure _

  take_snapshots-Emits : (i : ℕ) (cs : List ContainerSpec) → May (take_snapshots d i cs)
  unfolding take_snapshots
  take_snapshots-Emits i [] = Emits-pure _
  take_snapshots-Emits i (c ∷ cs) =
      Emits-bind (snapshot_replicas-Emits i c 0 (replica_count c))
        λ _. Emits-bind (take_snapshots-Emits (i + 1) cs) λ _. Emits-pure _

  snapshot_replicas-names :
      (i : ℕ) (c : ContainerSpec) (r n : ℕ)
      → ((k : ℕ) → k < r + n → Named (replica_name c k))
      → Always (All (λ (s : Snapshot). Named s.name)) (snapshot_replicas d i c r n)
  unfolding snapshot_replicas take_snapshot ◌>>=◌ pure
  snapshot_replicas-names i c r zero h t = tt
  snapshot_replicas-names i c r (suc n) h t =
      (h r (omega arith), snapshot_replicas-names i c (r + 1) n (λ k below. h k (omega arith)) _)

  take_snapshots-names :
      (i : ℕ) (cs : List ContainerSpec)
      → All (λ c. (k : ℕ) → k < replica_count c → Named (replica_name c k)) cs
      → Always (All (λ (s : Snapshot). Named s.name)) (take_snapshots d i cs)
  unfolding take_snapshots ◌>>=◌ pure
  take_snapshots-names i [] h t = tt
  take_snapshots-names i (c ∷ cs) h t =
      All-append _ _ _
        (snapshot_replicas-names i c 0 (replica_count c) (λ k below. h.0 k (omega arith)) t)
        (take_snapshots-names (i + 1) cs h.1 _)

  pub execute_rolling-Emits :
      All (λ c. (k : ℕ) → k < replica_count c → Named (replica_name c k)) spec.containers
      → May (execute_rolling d spec)
  unfolding execute_rolling
  execute_rolling-Emits h =
      Emits-bind_of (All (λ (s : Snapshot). Named s.name))
        (take_snapshots-names 0 spec.containers h) (take_snapshots-Emits 0 spec.containers)
        λ snapshots names.
          Emits-bind (roll_containers-Emits snapshots names spec.containers [] 0 h)
            λ _. Emits-pure _

-- The name of a replica of some container of the specification.
abbrev pub IsReplicaName : List ContainerSpec → Text → Type 0
IsReplicaName cs name = Any (λ c. (k : ℕ) × (k < replica_count c) × (name ≡ replica_name c k)) cs

pub All-replica_names :
    (cs : List ContainerSpec)
    → All (λ c. (k : ℕ) → k < replica_count c → IsReplicaName cs (replica_name c k)) cs
All-replica_names [] = tt
All-replica_names (c ∷ cs) = (
  λ k below. inl (k, below, refl),
  All-map _ _ (λ e h k below. inr (h k below)) cs (All-replica_names cs),
)

-- Whatever the engine answers, a rolling deployment stops and removes only ids that the engine's
-- create call answers, to some history and specification, and containers that its list call answers,
-- to some history, under the name of a replica of the specification or under a variant of one. It
-- renames only ids that the create call answers, to the name of a replica, and it starts no container
-- but by creating it.
pub execute_rolling-scope :
    (d : Docker) (spec : DeploymentSpec) (t : Trace)
    → Ran (Obeys (deploys d (IsReplicaName spec.containers))) t (execute_rolling d spec t).1
execute_rolling-scope d spec t =
    ran
      (execute_rolling-Emits d spec (IsReplicaName spec.containers)
        (All-replica_names spec.containers))
      t
