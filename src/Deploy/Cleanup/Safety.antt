-- ===== src/Deploy/Cleanup/Safety.antt =====
-- Which containers the clean-up of a deployment may take.
use lattice_runner.Base.{
  ◌≡◌, ◌≢◌, refl, ◌⊎◌, inl, inr, true, false, each-Any, Option, none, some, List, [], text_eq_iff,
  is_nil, contains, value_of, Any, arith, Bool-cases,
}
use lattice_runner.Names.{canonical_container_name}
use lattice_runner.Docker.{
  Container, Docker, M, ◌>>=◌, list_containers, Permit, Emits, Emits-if, Emits-pure,
  Emits-stop_and_remove, Emits-for_each, free_calls, Ran, Ran-trans, Obeys, next, here, ran, Trace,
}
use lattice_runner.Deploy.Spec.{DeploymentSpec}
use lattice_runner.Deploy.Cleanup.{
  managed_by, lattice, lattice_type, database, lattice_stack, Reason, stale_stack_container,
  cleanup_decision, first_name, any_needed, needed_ports, positive, spec_names, decision_for,
  remove_if, cleanup_one, over, cleanup_stale_containers, forced, force_one,
  force_remove_all_stack_containers,
}

-- Only containers of the list that have the property are stopped and removed, and nothing is
-- created, started or renamed.
abbrev pub removes_only : List Container → (Container → Type 0) → Permit
removes_only cs S = record {
  may_create = λ spec. ⊥;
  may_start = λ id. ⊥;
  may_stop = λ id. Any (λ c. (c.id ≡ id) × S c) cs;
  may_remove = λ id. Any (λ c. (c.id ≡ id) × S c) cs;
  may_rename = λ id name. ⊥;
  may_log = λ event. ⊥;
}

-- A container that a clean-up may take: managed by Lattice, no database, not in the specification
-- under either of its names, and of this stack or in the way of a port.
pub record IsStale (spec : DeploymentSpec) (c : Container) : Type 0 where
  pub managed : value_of managed_by c.labels ≡ lattice
  pub no_database : value_of lattice_type c.labels ≢ database
  pub not_named : contains (spec_names spec.containers) (first_name c) ≡ false
  pub not_named_canonical :
      contains (spec_names spec.containers) (canonical_container_name (first_name c)) ≡ false
  pub in_the_way :
      (value_of lattice_stack c.labels ≡ spec.stack_name)
      ⊎ (any_needed (needed_ports spec.containers) (positive c.public_ports) ≡ true)

decision-IsStale :
    (spec : DeploymentSpec) (c : Container) (r : Reason)
    → decision_for spec c ≡ some r
    → IsStale spec c
unfolding decision_for cleanup_decision
decision-IsStale spec c r h = ground (
  arith,
  text_eq_iff (value_of managed_by c.labels) lattice,
  text_eq_iff (value_of lattice_type c.labels) database,
  text_eq_iff (value_of lattice_stack c.labels) spec.stack_name,
)

pub forced-labels :
    (d : Docker) (spec : DeploymentSpec) (c : Container)
    → forced d spec c ≡ true
    → (value_of managed_by c.labels ≡ lattice)
      × (value_of lattice_type c.labels ≢ database)
      × (value_of lattice_stack c.labels ≡ spec.stack_name)
unfolding forced
forced-labels d spec c h = ground (
  arith,
  text_eq_iff (value_of managed_by c.labels) lattice,
  text_eq_iff (value_of lattice_type c.labels) database,
  text_eq_iff (value_of lattice_stack c.labels) spec.stack_name,
)

-- A container that a forced deployment may take: managed by Lattice, no database, of this stack.
pub record IsForced (spec : DeploymentSpec) (c : Container) : Type 0 where
  pub managed : value_of managed_by c.labels ≡ lattice
  pub no_database : value_of lattice_type c.labels ≢ database
  pub same_stack : value_of lattice_stack c.labels ≡ spec.stack_name

module _ (d : Docker) (spec : DeploymentSpec) (cs : List Container) where
  remove_if-Emits :
      (S : Container → Type 0) (r : Option Reason) (c : Container)
      → (((reason : Reason) → r ≡ some reason → S c))
      → (S c → Any (λ y. (y.id ≡ c.id) × S y) cs)
      → Emits (removes_only cs S) (remove_if d spec r c.id)
  unfolding remove_if
  remove_if-Emits S none c h k = Emits-pure _
  remove_if-Emits S (some reason) c h k =
      let allowed = k (h reason refl) in search (free_calls, Emits-stop_and_remove, allowed)

  over-Emits :
      (S : Container → Type 0) (f : Container → M (Unit {0})) (o : Option (List Container))
      → ((c : Container)
          → (S c → Any (λ y. (y.id ≡ c.id) × S y) cs)
          → Emits (removes_only cs S) (f c))
      → (o ≡ some cs)
      → Emits (removes_only cs S) (over d spec f o)
  unfolding over
  over-Emits S f o h e = rw e (Emits-for_each _ cs (each-Any (λ c. c.id) S cs) h)

  cleanup_one-Emits :
      (c : Container)
      → (IsStale spec c → Any (λ y. (y.id ≡ c.id) × IsStale spec y) cs)
      → Emits (removes_only cs (IsStale spec)) (cleanup_one d spec c)
  unfolding cleanup_one
  cleanup_one-Emits c k =
      Emits-if (is_nil (first_name c)) (Emits-pure _)
        (remove_if-Emits (IsStale spec) (decision_for spec c) c (decision-IsStale spec c) k)

  force_one-Emits :
      (c : Container)
      → (IsForced spec c → Any (λ y. (y.id ≡ c.id) × IsForced spec y) cs)
      → Emits (removes_only cs (IsForced spec)) (force_one d spec c)
  unfolding force_one
  force_one-Emits c k = elim (Bool-cases (forced d spec c)) [
    | inl yes_forced ↦
        let (m, n, s) = forced-labels d spec c yes_forced in
        rw yes_forced (
          remove_if-Emits (IsForced spec) (some stale_stack_container) c
            (λ r e. record { managed = m; no_database = n; same_stack = s }) k)
    | inr kept ↦ rw kept (Emits-pure _)
  ]

  -- Whatever the engine answers, the clean-up before a deployment stops and removes only containers
  -- of the list it was given that are managed by Lattice, are no databases, are not in the
  -- specification, and are of the same stack or hold a port that it needs; it creates, starts and
  -- renames nothing.
  pub cleanup_stale_containers-safe :
      (t : Trace)
      → d.list t [] ≡ some cs
      → Ran (Obeys (removes_only cs (IsStale spec))) t (cleanup_stale_containers d spec t).1
  unfolding cleanup_stale_containers ◌>>=◌ list_containers
  cleanup_stale_containers-safe t e =
      Ran-trans (next tt here)
        (ran (over-Emits (IsStale spec) (cleanup_one d spec) (d.list t []) cleanup_one-Emits e) _)

  -- A forced deployment stops and removes only containers of the list that are managed by Lattice,
  -- are no databases and carry the label of the stack, whatever the engine answers.
  pub force_remove-safe :
      (t : Trace)
      → d.list t [] ≡ some cs
      → Ran
          (Obeys (removes_only cs (IsForced spec)))
          t
          (force_remove_all_stack_containers d spec t).1
  unfolding force_remove_all_stack_containers ◌>>=◌ list_containers
  force_remove-safe t e =
      Ran-trans (next tt here)
        (ran (over-Emits (IsForced spec) (force_one d spec) (d.list t []) force_one-Emits e) _)
