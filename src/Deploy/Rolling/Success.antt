-- ===== src/Deploy/Rolling/Success.antt =====
-- What a rolling deployment without an error has done.
use lattice_runner.Base.{
  ℕ, zero, suc, ◌+◌, ◌<◌, ◌≡◌, inl, inr, refl, Bool, true, false, ◌==◌, Option, none, some, List,
  [], ◌∷◌, ◌++◌, Text, length, All, Any, Bool-cases, arith,
}
use lattice_runner.Names.{dash}
use lattice_runner.Docker.{
  Info, Event, created, inspected, Trace, Docker, M, ◌>>=◌, pure, sleep, report, pull_image,
  create_and_start, inspect_container, rename_container, list_containers, running, Permit, Ran,
  Emits, ran, Emits-bind, Emits-pure, Emits-stop_and_remove, Emits-for_each,
}
use lattice_runner.Deploy.Spec.{
  ContainerSpec, DeploymentSpec, replica_count, replica_name, engine_spec,
}
use lattice_runner.Deploy.Rolling.{
  Snapshot, OldContainer, matches_of, should_probe, append_idx, Outcome, replaced, abandoned,
  random_suffix, find_all_matching_containers, remove_olds, finish_swap, check_new, swap,
  judge_probe, after_probe, replace_replica, Progress, went_on, gave_up, fail_rolling,
  after_replica, roll_replicas, after_pull, roll_container, roll_next, roll_containers, error_of,
  execute_rolling, take_snapshots,
}
use mathlib.Core.Path.{subst}
use lattice_runner.Base.{==_iff, ap, ◌∙◌, ◌≤◌, Any-map}
use lattice_runner.Docker.{Any-Ran}
use lattice_runner.Deploy.Rolling.Scope.{roll_replicas-Emits, roll_containers-Emits}

-- An inspection that found the container running.
abbrev pub FoundRunning : ℕ → Event → Type 0
FoundRunning id e = (info : Info) × (e ≡ inspected id (some info)) × (info.is_running ≡ true)

-- The history shows a container of the specification, under the name of the replica and a suffix,
-- that was created and then found running.
abbrev pub Deployed : DeploymentSpec → ContainerSpec → Text → Trace → Type 0
Deployed spec c name u =
    (id : ℕ) × (suffix : Text) × Any
      (λ e. e ≡ created (engine_spec spec c (name ++ dash ∷ suffix)) (some id)) u
    × Any (FoundRunning id) u

module _ {P : Event → Type 0} (spec : DeploymentSpec) (c : ContainerSpec) (name : Text) where
  pub Deployed-Ran : {t u : Trace} → Ran P t u → Deployed spec c name t → Deployed spec c name u
  Deployed-Ran r (id, suffix, was_created, was_running) =
      (id, suffix, Any-Ran _ r was_created, Any-Ran _ r was_running)

abbrev Done : DeploymentSpec → ContainerSpec → Text → Outcome × Trace → Type 0
Done spec c name (abandoned rb e, u) = Unit
Done spec c name (replaced id, u) = Deployed spec c name u

running_info :
    (o : Option Info)
    → running o ≡ true
    → (info : Info) × (o ≡ some info) × (info.is_running ≡ true)
running_info none h = cc
running_info (some info) h = (info, refl, h)

-- The history only grows.
abbrev anything : Permit
anything = record {
  may_create = λ s. Unit;
  may_start = λ id. Unit;
  may_stop = λ id. Unit;
  may_remove = λ id. Unit;
  may_rename = λ id name. Unit;
  may_log = λ event. Unit;
}

grow_olds : (d : Docker) (olds : List OldContainer) → Emits anything (remove_olds d olds)
unfolding remove_olds
grow_olds d olds =
    Emits-for_each (λ o. Unit {0}) olds (All-unit olds)
      (λ o _. Emits-bind (Emits-stop_and_remove d o.id tt tt) (λ _. Emits-pure _))
  where
    All-unit : (os : List OldContainer) → All (λ o. Unit {0}) os
    All-unit [] = tt
    All-unit (o ∷ os) = (tt, All-unit os)

module _ (d : Docker) (spec : DeploymentSpec) (c : ContainerSpec) (name : Text) (updated : List ℕ)
    (idx : ℕ) (olds : List OldContainer) where
  Created : Text → ℕ → Trace → Type 0
  Created suffix id u =
      Any (λ e. e ≡ created (engine_spec spec c (name ++ dash ∷ suffix)) (some id)) u

  finish_swap-Done :
      (suffix : Text) (id : ℕ) (rb : List ℕ) (info : Option Info) (u : Trace)
      → Created suffix id u
      → Any (λ e. e ≡ inspected id info) u
      → Done spec c name (finish_swap d spec name olds id updated rb info u)
  unfolding finish_swap ◌>>=◌ pure report rename_container Created
  finish_swap-Done suffix id rb info u made seen = elim (Bool-cases (running info)) [
    | inl up ↦
        let (i, e, r) = running_info info up in
        let grown = ran (grow_olds d olds) u in
        rw up (
          id,
          suffix,
          inr (inr (Any-Ran _ grown made)),
          inr (inr (Any-Ran _ grown (Any-map (λ ev s. (i, s ∙ ap (inspected id) e, r)) u seen))),
        )
    | inr down ↦ rw down tt
  ]

  check_new-Done :
      (suffix : Text) (on_error : List ℕ) (made : Option ℕ) (u : Trace)
      → ((id : ℕ) → made ≡ some id → Created suffix id u)
      → Done spec c name (check_new d spec name olds updated idx on_error made u)
  unfolding check_new ◌>>=◌ pure report inspect_container Created
  check_new-Done suffix on_error none u h = tt
  check_new-Done suffix on_error (some id) u h =
      finish_swap-Done suffix id _ (d.inspect u id) _ (inr (h id refl)) (inl refl)

  swap-Done :
      (suffix : Text) (on_error : List ℕ) (u : Trace)
      → Done spec c name (swap d spec c name (name ++ dash ∷ suffix) olds updated idx on_error u)
  unfolding swap ◌>>=◌ create_and_start Created
  swap-Done suffix on_error u =
      check_new-Done suffix on_error _ _
        (λ id e. inl (ap (created (engine_spec spec c (name ++ dash ∷ suffix))) e))

  judge_probe-Done :
      (suffix : Text) (id : ℕ) (info : Option Info) (u : Trace)
      → Done spec c name
          (judge_probe d spec c name (name ++ dash ∷ suffix) olds updated idx id info u)
  unfolding judge_probe ◌>>=◌ pure report
  judge_probe-Done suffix id info u = elim (Bool-cases (running info)) [
    | inl up ↦ rw up (swap-Done suffix _ _)
    | inr down ↦ rw down tt
  ]

  after_probe-Done :
      (suffix : Text) (made : Option ℕ) (u : Trace)
      → Done spec c name (after_probe d spec c name (name ++ dash ∷ suffix) olds updated idx made u)
  unfolding after_probe ◌>>=◌ pure report sleep inspect_container
  after_probe-Done suffix none u = tt
  after_probe-Done suffix (some id) u = judge_probe-Done suffix id _ _

replace_replica-Done :
    (d : Docker) (spec : DeploymentSpec) (c : ContainerSpec) (name : Text) (updated : List ℕ)
    (idx : ℕ) (t : Trace)
    → Done spec c name (replace_replica d spec c name updated idx t)
unfolding replace_replica ◌>>=◌ find_all_matching_containers list_containers random_suffix report
    pure create_and_start
replace_replica-Done d spec c name updated idx t =
    let olds = matches_of name (d.list t []) in
    elim (Bool-cases (should_probe (length c.port_mappings) (length olds) (length c.volumes))) [
      | inl probed ↦ rw probed (after_probe-Done d spec c name updated idx olds _ _ _)
      | inr plain ↦ rw plain (swap-Done d spec c name updated idx olds _ _ _)
    ]

module _ (d : Docker) (spec : DeploymentSpec) (snapshots : List Snapshot) where
  -- The replicas from `r` on are deployed, unless the loop gave up.
  abbrev Rolled : ContainerSpec → ℕ → ℕ → Progress × Trace → Type 0
  Rolled c r n (gave_up e, u) = Unit
  Rolled c r n (went_on updated idx, u) =
      (k : ℕ) → r ≤ k → k < r + n → Deployed spec c (replica_name c k) u

  Rolled-cons :
      {P : Event → Type 0} (c : ContainerSpec) (r n : ℕ) {t : Trace} (q : Progress × Trace)
      → Ran P t q.1
      → Deployed spec c (replica_name c r) t
      → Rolled c (r + 1) n q
      → Rolled c r (suc n) q
  Rolled-cons c r n (gave_up e, u) ext first rest = tt
  Rolled-cons c r n (went_on updated idx, u) ext first rest = λ k low high.
      elim (Bool-cases (r == k)) [
        | inl same ↦
            subst (λ j. Deployed spec c (replica_name c j) u) ((==_iff r k).0 same)
              (Deployed-Ran spec c (replica_name c r) ext first)
        | inr later ↦ rest k (ground arith) (omega arith)
      ]

  after_replica-Rolled :
      {P : Event → Type 0} (c : ContainerSpec) (r n : ℕ) (o : Outcome) (t : Trace)
      (rest : M Progress)
      → Done spec c (replica_name c r) (o, t)
      → Rolled c (r + 1) n (rest t)
      → Ran P t (rest t).1
      → Rolled c r (suc n) (after_replica d spec snapshots o rest t)
  unfolding after_replica fail_rolling ◌>>=◌ pure
  after_replica-Rolled c r n (replaced id) t rest first later ext =
      Rolled-cons c r n (rest t) ext first later
  after_replica-Rolled c r n (abandoned rb e) t rest first later ext = tt

  -- Every snapshot and every name is fine here: only the growth of the history matters.
  All-snapshots : All (λ (s : Snapshot). Unit {0}) snapshots
  All-snapshots = every snapshots
    where
      every : (ss : List Snapshot) → All (λ (s : Snapshot). Unit {0}) ss
      every [] = tt
      every (s ∷ ss) = (tt, every ss)

  roll_replicas-Rolled :
      (c : ContainerSpec) (r n : ℕ) (updated : List ℕ) (idx : ℕ) (t : Trace)
      → Rolled c r n (roll_replicas d spec snapshots c r n updated idx t)
  unfolding roll_replicas ◌>>=◌ pure
  roll_replicas-Rolled c r zero updated idx t = λ k low high. absurd (omega arith)
  roll_replicas-Rolled c r (suc n) updated idx t =
      let rest = roll_replicas d spec snapshots c (r + 1) n (append_idx updated idx) (idx + 1) in
      let (o, u) = replace_replica d spec c (replica_name c r) updated idx t in
      after_replica-Rolled c r n o u rest
        (replace_replica-Done d spec c (replica_name c r) updated idx t)
        (roll_replicas-Rolled c (r + 1) n (append_idx updated idx) (idx + 1) u)
        (ran
          (roll_replicas-Emits d spec (λ n. Unit {0}) snapshots All-snapshots c (r + 1) n
            (append_idx updated idx) (idx + 1) (λ k below. tt))
          u)

  abbrev AllRolled : List ContainerSpec → Progress × Trace → Type 0
  AllRolled cs (gave_up e, u) = Unit
  AllRolled cs (went_on updated idx, u) =
      All (λ c. (k : ℕ) → k < replica_count c → Deployed spec c (replica_name c k) u) cs

  after_pull-Rolled :
      (ok : Bool) (c : ContainerSpec) (updated : List ℕ) (idx : ℕ) (t : Trace)
      → Rolled c 0 (replica_count c) (after_pull d spec ok snapshots c updated idx t)
  unfolding after_pull fail_rolling ◌>>=◌ pure report
  after_pull-Rolled false c updated idx t = tt
  after_pull-Rolled true c updated idx t = roll_replicas-Rolled c 0 (replica_count c) updated idx _

  AllRolled-cons :
      {P : Event → Type 0} (c : ContainerSpec) (cs : List ContainerSpec) {t : Trace}
      (q : Progress × Trace)
      → Ran P t q.1
      → ((k : ℕ) → k < replica_count c → Deployed spec c (replica_name c k) t)
      → AllRolled cs q
      → AllRolled (c ∷ cs) q
  AllRolled-cons c cs (gave_up e, u) ext first rest = tt
  AllRolled-cons c cs (went_on updated idx, u) ext first rest =
      (λ k below. Deployed-Ran spec c (replica_name c k) ext (first k below), rest)

  roll_next-Rolled :
      (c : ContainerSpec) (cs : List ContainerSpec) (q : Progress × Trace)
      → Rolled c 0 (replica_count c) q
      → ((updated : List ℕ) (idx : ℕ) (t : Trace)
          → AllRolled cs (roll_containers d spec snapshots cs updated idx t))
      → AllRolled (c ∷ cs) (roll_next d spec (roll_containers d spec snapshots cs) q.0 q.1)
  unfolding roll_next pure
  roll_next-Rolled c cs (gave_up e, u) first rest = tt
  roll_next-Rolled c cs (went_on updated idx, u) first rest =
      AllRolled-cons c cs (roll_containers d spec snapshots cs updated idx u)
        (ran
          (roll_containers-Emits d spec (λ n. Unit {0}) snapshots All-snapshots cs updated idx
            (any_name cs))
          u)
        (λ k below. first k (omega arith) (omega arith)) (rest updated idx u)
    where
      any_name : (cs : List ContainerSpec) → All (λ c. (k : ℕ) → k < replica_count c → Unit {0}) cs
      any_name [] = tt
      any_name (c ∷ cs) = (λ k below. tt, any_name cs)

  roll_containers-Rolled :
      (cs : List ContainerSpec) (updated : List ℕ) (idx : ℕ) (t : Trace)
      → AllRolled cs (roll_containers d spec snapshots cs updated idx t)
  unfolding roll_containers ◌>>=◌ pure roll_container report pull_image
  roll_containers-Rolled [] updated idx t = tt
  roll_containers-Rolled (c ∷ cs) updated idx t =
      roll_next-Rolled c cs _ (after_pull-Rolled _ c updated idx _) (roll_containers-Rolled cs)

AllRolled-no_error :
    (d : Docker) (spec : DeploymentSpec) (snapshots : List Snapshot) (q : Progress × Trace)
    → AllRolled d spec snapshots spec.containers q
    → error_of d spec q.0 ≡ none
    → All
        (λ c. (k : ℕ) → k < replica_count c → Deployed spec c (replica_name c k) q.1)
        spec.containers
unfolding error_of
AllRolled-no_error d spec snapshots (went_on updated idx, u) h e = h
AllRolled-no_error d spec snapshots (gave_up err, u) h e = cc

-- A rolling deployment that returns no error has created a container for every replica of every
-- container of the specification, under the replica's name and a suffix, and has found each of them
-- running.
pub execute_rolling-Deployed :
    (d : Docker) (spec : DeploymentSpec) (t : Trace)
    → (execute_rolling d spec t).0 ≡ none
    → All
        (λ c.
          (k : ℕ)
          → k < replica_count c
          → Deployed spec c (replica_name c k) (execute_rolling d spec t).1)
        spec.containers
unfolding execute_rolling ◌>>=◌ pure
execute_rolling-Deployed d spec t e =
    let (snapshots, u) = take_snapshots d 0 spec.containers t in
    AllRolled-no_error d spec snapshots _
      (roll_containers-Rolled d spec snapshots spec.containers [] 0 u) e
