-- ===== src/Deploy/Rolling/Replica.antt =====
-- Which containers the replacement of one replica may touch.
use lattice_runner.Base.{
  ℕ, ◌≡◌, ◌⊎◌, inl, inr, refl, Option, none, some, List, [], ◌∷◌, Text, length, All, Any,
  Option-cases,
}
use lattice_runner.Docker.{
  Info, Container, EngineSpec, Trace, Docker, M, ◌>>=◌, pure, create_and_start, rename_container,
  list_containers, stop_and_remove_container, Permit, here, Emits, emits, Always, Emits-bind,
  Emits-bind_of, Emits-if, Emits-pure, Emits-create, Emits-rename, Emits-report, Emits-inspect,
  Emits-sleep, Emits-stop_or_kill, Emits-stop_and_remove, Emits-for_each, free_calls,
}
use lattice_runner.Deploy.Spec.{ContainerSpec, DeploymentSpec, engine_spec}
use lattice_runner.Deploy.Rolling.{
  OldContainer, deploying, matches, matches_of, should_probe, append_idx, random_suffix,
  find_all_matching_containers, remove_olds, stop_olds, finish_swap, check_new, swap, probe_spec,
  judge_probe, after_probe, probed_swap, replace_replica,
}

-- A container that was listed under a name of `Named`, or under a variant of one.
abbrev pub Matched : Docker → (Text → Type 0) → ℕ → Type 0
Matched d Named id =
    (name : Text) × Named name
    × (t : Trace) × (cs : List Container) × (d.list t [] ≡ some cs)
    × Any (λ (o : OldContainer). o.id ≡ id) (matches name cs)

abbrev pub Made : Docker → ℕ → Type 0
Made d id = (t : Trace) × (s : EngineSpec) × (d.create t s ≡ some id)

-- A deployment stops and removes what the engine creates or what has one of the names; it renames
-- what the engine creates to such a name, and starts nothing else.
abbrev pub deploys : Docker → (Text → Type 0) → Permit
deploys d Named = record {
  may_create = λ s. Unit;
  may_start = λ id. ⊥;
  may_stop = λ id. Made d id ⊎ Matched d Named id;
  may_remove = λ id. Made d id ⊎ Matched d Named id;
  may_rename = λ id name. Made d id × Named name;
  may_log = λ event. ⊥;
}

Matched-olds :
    (d : Docker) (Named : Text → Type 0) (name : Text) (t : Trace)
    → Named name
    → All (λ (o : OldContainer). Matched d Named o.id) (matches_of name (d.list t []))
unfolding matches_of
Matched-olds d Named name t h = elim (Option-cases (d.list t [])) [
  | inl e ↦ rw e tt
  | inr (cs, e) ↦ rw e (each (matches name cs) (λ id i. (name, h, t, cs, e, i)))
]
  where
    each :
        (os : List OldContainer) {P : ℕ → Type 0}
        → ((id : ℕ) → Any (λ (o : OldContainer). o.id ≡ id) os → P id)
        → All (λ (o : OldContainer). P o.id) os
    each [] k = tt
    each (o ∷ os) k = (k o.id (inl refl), each os (λ id i. k id (inr i)))

module _ (d : Docker) (spec : DeploymentSpec) (Named : Text → Type 0) where
  abbrev May : {A : Type 0} → M A → Type 0
  May m = Emits (deploys d Named) m

  pub Emits-random : May (random_suffix d)
  unfolding random_suffix
  Emits-random = emits (λ t. here)

  pub Emits-find_all : (name : Text) → May (find_all_matching_containers d name)
  unfolding find_all_matching_containers
  Emits-find_all name = search free_calls

  pub Emits-remove_olds :
      (olds : List OldContainer)
      → All (λ (o : OldContainer). Matched d Named o.id) olds
      → May (remove_olds d olds)
  unfolding remove_olds
  Emits-remove_olds olds h =
      Emits-for_each _ olds h
        (λ o m. Emits-bind (Emits-stop_and_remove d o.id (inr m) (inr m)) (λ _. Emits-pure _))

  Emits-stop_olds :
      (olds : List OldContainer)
      → All (λ (o : OldContainer). Matched d Named o.id) olds
      → May (stop_olds d olds)
  unfolding stop_olds
  Emits-stop_olds olds h = Emits-for_each _ olds h (λ o m. Emits-stop_or_kill d o.id (inr m))

  -- What the lookup of old containers returns has the name that was asked for.
  pub with_olds :
      {B : Type 0} (name : Text) {f : List OldContainer → M B}
      → Named name
      → ((olds : List OldContainer)
          → All (λ (o : OldContainer). Matched d Named o.id) olds
          → May (f olds))
      → May (find_all_matching_containers d name >>= f)
  with_olds name h k =
      Emits-bind_of (All (λ (o : OldContainer). Matched d Named o.id)) (found name h)
        (Emits-find_all name) k
    where
      found :
          (name : Text)
          → Named name
          → Always
              (All (λ (o : OldContainer). Matched d Named o.id))
              (find_all_matching_containers d name)
      found name h t =
          unfold find_all_matching_containers ◌>>=◌ pure list_containers in
          Matched-olds d Named name t h

  -- What the engine creates may be stopped, removed and renamed.
  pub with-Made :
      {B : Type 0} (s : EngineSpec) {f : Option ℕ → M B}
      → ((made : Option ℕ) → ((id : ℕ) → made ≡ some id → Made d id) → May (f made))
      → May (create_and_start d s >>= f)
  with-Made s k =
      Emits-bind_of (λ made. (id : ℕ) → made ≡ some id → Made d id) (made_by s)
        (Emits-create d s tt) k
    where
      made_by :
          (s : EngineSpec)
          → Always (λ made. (id : ℕ) → made ≡ some id → Made d id) (create_and_start d s)
      made_by s t id e = unfold create_and_start in (t, s, e)

  module _ (c : ContainerSpec) (name deploy_name : Text) (updated : List ℕ) (idx : ℕ)
      (named : Named name) (olds : List OldContainer)
      (old : All (λ (o : OldContainer). Matched d Named o.id) olds) where
    finish_swap-Emits :
        (id : ℕ) (rollback : List ℕ) (info : Option Info)
        → Made d id
        → May (finish_swap d spec name olds id updated rollback info)
    unfolding finish_swap
    finish_swap-Emits id rollback info made =
        let may_rename : May (rename_container d id name) = Emits-rename d id name (made, named) in
        let may_remove : May (remove_olds d olds) = Emits-remove_olds olds old in
        search (free_calls, may_rename, may_remove) depth 8

    check_new-Emits :
        (on_error : List ℕ) (made : Option ℕ)
        → ((id : ℕ) → made ≡ some id → Made d id)
        → May (check_new d spec name olds updated idx on_error made)
    unfolding check_new
    check_new-Emits on_error none h = search free_calls
    check_new-Emits on_error (some id) h =
        Emits-bind (Emits-inspect d id) (λ info. finish_swap-Emits id _ info (h id refl))

    swap-Emits :
        (on_error : List ℕ) → May (swap d spec c name deploy_name olds updated idx on_error)
    unfolding swap
    swap-Emits on_error =
        Emits-bind (Emits-stop_olds olds old)
          (λ _. with-Made (engine_spec spec c deploy_name) (check_new-Emits on_error))

    judge_probe-Emits :
        (id : ℕ) (info : Option Info)
        → Made d id
        → May (judge_probe d spec c name deploy_name olds updated idx id info)
    unfolding judge_probe
    judge_probe-Emits id info made =
        let gone : May (stop_and_remove_container d id) =
          Emits-stop_and_remove d id (inl made) (inl made) in
        let swapped = swap-Emits (append_idx updated idx) in
        search (free_calls, gone, swapped) depth 8

    after_probe-Emits :
        (made : Option ℕ)
        → ((id : ℕ) → made ≡ some id → Made d id)
        → May (after_probe d spec c name deploy_name olds updated idx made)
    unfolding after_probe
    after_probe-Emits none h = search free_calls
    after_probe-Emits (some id) h =
        Emits-bind (Emits-sleep 2000)
          (λ _. Emits-bind (Emits-inspect d id) (λ info. judge_probe-Emits id info (h id refl)))

    probed_swap-Emits : May (probed_swap d spec c name deploy_name olds updated idx)
    unfolding probed_swap
    probed_swap-Emits =
        Emits-bind (Emits-report deploying)
          (λ _. with-Made (probe_spec d spec c deploy_name) after_probe-Emits)

  pub replace_replica-Emits :
      (c : ContainerSpec) (name : Text) (updated : List ℕ) (idx : ℕ)
      → Named name
      → May (replace_replica d spec c name updated idx)
  unfolding replace_replica
  replace_replica-Emits c name updated idx h = with_olds name h λ olds old.
      Emits-bind Emits-random λ suffix. Emits-bind (Emits-report deploying) λ _.
        Emits-if (should_probe (length c.port_mappings) (length olds) (length c.volumes))
          (probed_swap-Emits c name _ updated idx h olds old)
          (swap-Emits c name _ updated idx h olds old _)
