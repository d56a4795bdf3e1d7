-- ===== src/Deploy/Rolling/Swap.antt =====
-- Replacing one replica: which failures put the predecessor into the rollback.
use lattice_runner.Base.{
  ℕ, ◌≡◌, ◌⊎◌, inl, inr, refl, Option, none, some, List, [], ◌∷◌, Text, if◌then◌else◌, is_nil,
  length, Bool-cases,
}
use lattice_runner.Docker.{
  Info, EngineSpec, listed, reported, Trace, Docker, ◌>>=◌, pure, sleep, report, create_and_start,
  inspect_container, rename_container, list_containers, running, for_each, Permit, Obeys, Ran, here,
  next, Ran-trans, ran, Emits-stop_and_remove,
}
use lattice_runner.Deploy.Spec.{ContainerSpec, DeploymentSpec}
use lattice_runner.Deploy.Rolling.{
  OldContainer, deploying, matches_of, should_probe, append_idx, Outcome, replaced, abandoned,
  random_suffix, find_all_matching_containers, stop_olds, finish_swap, check_new, swap, judge_probe,
  after_probe, probed_swap, replace_replica,
}

-- Only ids that are an answer of the engine's create call are stopped and removed; nothing is
-- started or renamed.
abbrev pub Own : Docker → ℕ → Type 0
Own d id = (t : Trace) × (s : EngineSpec) × (d.create t s ≡ some id)

abbrev pub own_only : Docker → Permit
own_only d = record {
  may_create = λ s. Unit;
  may_start = λ id. ⊥;
  may_stop = Own d;
  may_remove = Own d;
  may_rename = λ id name. ⊥;
  may_log = λ event. ⊥;
}

-- What a failed replacement leaves: its own index is to be rolled back, or no container that stood
-- before was touched since `t` and the rollback is that of the replicas before it.
abbrev pub RollsBack : Docker → List ℕ → ℕ → Trace → Outcome × Trace → Type 0
RollsBack d updated idx t (replaced id, u) = Unit
RollsBack d updated idx t (abandoned rollback e, u) =
    (rollback ≡ append_idx updated idx) ⊎ ((rollback ≡ updated) × Ran (Obeys (own_only d)) t u)

abbrev Appended : List ℕ → ℕ → Outcome → Type 0
Appended updated idx (replaced id) = Unit
Appended updated idx (abandoned rollback e) = rollback ≡ append_idx updated idx

Appended-RollsBack :
    (d : Docker) (updated : List ℕ) (idx : ℕ) (t : Trace) (o : Outcome × Trace)
    → Appended updated idx o.0
    → RollsBack d updated idx t o
Appended-RollsBack d updated idx t (replaced id, u) h = tt
Appended-RollsBack d updated idx t (abandoned rollback e, u) h = inl h

module _ (d : Docker) (spec : DeploymentSpec) (name : Text) (updated : List ℕ) (idx : ℕ) where
  finish_swap-Appended :
      (olds : List OldContainer) (id : ℕ) (info : Option Info) (t : Trace)
      → Appended updated idx
          (finish_swap d spec name olds id updated (append_idx updated idx) info t).0
  unfolding finish_swap ◌>>=◌ pure report rename_container
  finish_swap-Appended olds id info t = elim (Bool-cases (running info)) [
    | inl up ↦ rw up tt
    | inr down ↦ rw down refl
  ]

  check_new-Appended :
      (olds : List OldContainer) (made : Option ℕ) (t : Trace)
      → Appended updated idx
          (check_new d spec name olds updated idx (append_idx updated idx) made t).0
  unfolding check_new ◌>>=◌ pure report inspect_container
  check_new-Appended olds none t = refl
  check_new-Appended olds (some id) t = finish_swap-Appended olds id (d.inspect t id) _

  swap-Appended :
      (c : ContainerSpec) (deploy_name : Text) (olds : List OldContainer) (t : Trace)
      → Appended updated idx
          (swap d spec c name deploy_name olds updated idx (append_idx updated idx) t).0
  unfolding swap ◌>>=◌
  swap-Appended c deploy_name olds t = check_new-Appended olds _ _

  -- With no old container there is nothing to stop, so a failed creation leaves all as it was.
  check_fresh-RollsBack :
      (made : Option ℕ) (t u : Trace)
      → Ran (Obeys (own_only d)) t u
      → RollsBack d updated idx t (check_new d spec name [] updated idx updated made u)
  unfolding check_new ◌>>=◌ pure report inspect_container
  check_fresh-RollsBack none t u r = inr (refl, next tt r)
  check_fresh-RollsBack (some id) t u r =
      Appended-RollsBack d updated idx t _ (finish_swap-Appended [] id (d.inspect u id) _)

  swap_fresh-RollsBack :
      (c : ContainerSpec) (deploy_name : Text) (t u : Trace)
      → Ran (Obeys (own_only d)) t u
      → RollsBack d updated idx t (swap d spec c name deploy_name [] updated idx updated u)
  unfolding swap ◌>>=◌ stop_olds for_each pure create_and_start
  swap_fresh-RollsBack c deploy_name t u r = check_fresh-RollsBack _ t _ (next tt r)

  judge_probe-RollsBack :
      (c : ContainerSpec) (deploy_name : Text) (olds : List OldContainer) (id : ℕ)
      (info : Option Info) (t u : Trace)
      → Own d id
      → Ran (Obeys (own_only d)) t u
      → RollsBack d updated idx t (judge_probe d spec c name deploy_name olds updated idx id info u)
  unfolding judge_probe ◌>>=◌ pure report
  judge_probe-RollsBack c deploy_name olds id info t u own r = elim (Bool-cases (running info)) [
    | inl up ↦ rw up (Appended-RollsBack d updated idx t _ (swap-Appended c deploy_name olds _))
    | inr down ↦
        rw down (inr (refl, next tt (Ran-trans r (ran (Emits-stop_and_remove d id own own) u))))
  ]

  after_probe-RollsBack :
      (c : ContainerSpec) (deploy_name : Text) (olds : List OldContainer) (made : Option ℕ)
      (t u : Trace)
      → ((id : ℕ) → made ≡ some id → Own d id)
      → Ran (Obeys (own_only d)) t u
      → RollsBack d updated idx t (after_probe d spec c name deploy_name olds updated idx made u)
  unfolding after_probe ◌>>=◌ pure report sleep inspect_container
  after_probe-RollsBack c deploy_name olds none t u own r = inr (refl, next tt r)
  after_probe-RollsBack c deploy_name olds (some id) t u own r =
      judge_probe-RollsBack c deploy_name olds id _ t _ (own id refl) (next tt (next tt r))

  probed_swap-RollsBack :
      (c : ContainerSpec) (deploy_name : Text) (olds : List OldContainer) (t u : Trace)
      → Ran (Obeys (own_only d)) t u
      → RollsBack d updated idx t (probed_swap d spec c name deploy_name olds updated idx u)
  unfolding probed_swap ◌>>=◌ report create_and_start
  probed_swap-RollsBack c deploy_name olds t u r =
      after_probe-RollsBack c deploy_name olds _ t _ (λ id e. (_, _, e)) (next tt (next tt r))

  swap-RollsBack :
      (c : ContainerSpec) (deploy_name : Text) (olds : List OldContainer) (t u : Trace)
      → Ran (Obeys (own_only d)) t u
      → RollsBack d updated idx t (
          swap d spec c name deploy_name olds updated idx
            (if is_nil olds then updated else append_idx updated idx)
            u)
  swap-RollsBack c deploy_name [] t u r = swap_fresh-RollsBack c deploy_name t u r
  swap-RollsBack c deploy_name (o ∷ olds) t u r =
      Appended-RollsBack d updated idx t _ (swap-Appended c deploy_name (o ∷ olds) u)

  -- Whatever the engine answers, a replica that fails to be replaced is rolled back itself, beside
  -- those replaced before it, unless the attempt started and renamed no container, and each id that it
  -- stopped or removed is an answer of the engine's create call, to some history and specification.
  pub replace_replica-RollsBack :
      (c : ContainerSpec) (t : Trace)
      → RollsBack d updated idx t (replace_replica d spec c name updated idx t)
  unfolding replace_replica ◌>>=◌ find_all_matching_containers list_containers random_suffix report
      pure
  replace_replica-RollsBack c t =
      let olds = matches_of name (d.list t []) in
      let r : Ran (Obeys (own_only d)) t (reported deploying ∷ listed (d.list t []) ∷ t) =
        next tt (next tt here) in
      elim (Bool-cases (should_probe (length c.port_mappings) (length olds) (length c.volumes))) [
        | inl probed ↦ rw probed (probed_swap-RollsBack c _ olds t _ r)
        | inr plain ↦ rw plain (swap-RollsBack c _ olds t _ r)
      ]
