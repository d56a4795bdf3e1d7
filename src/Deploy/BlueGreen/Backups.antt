-- ===== src/Deploy/BlueGreen/Backups.antt =====
-- What becomes of the containers that a blue-green deployment finds in place.
use mathlib.Core.Path.{subst}
use lattice_runner.Base.{
  ℕ, zero, suc, ◌+◌, ◌≡◌, inl, inr, refl, Bool, true, false, Option, none, some, List, [], ◌∷◌,
  Text, text_eq, All, Bool-cases,
}
use lattice_runner.Docker.{
  Info, EngineSpec, Trace, Docker, M, ◌>>=◌, pure, create_and_start, Permit, Obeys, Ran, Emits, ran,
  Always, Emits-bind, Emits-bind_of, Emits-if, Emits-pure, Emits-create, Emits-rename, Emits-report,
  Emits-inspect, Emits-pull, Emits-now, Emits-stop, Emits-remove, Emits-find, Emits-stop_and_remove,
  Emits-for_each, free_calls,
}
use lattice_runner.Deploy.Spec.{ContainerSpec, DeploymentSpec, replica_count}
use lattice_runner.Deploy.Canary.{seconds}
use lattice_runner.Deploy.BlueGreen.{
  BlueGreenError, Greens, Backup, Started, greens_up, start_failed, Swapped, needs_green,
  wait_green, wait_rounds, put_green, green_of, stop_and_drop, cleanup_green, fail_start,
  then_started, green_made, start_replicas, green_pulled, start_greens, fail_check, judge_green,
  check_greens, retire, drop_green, verify_final, final_made, swap_replicas, swap_all, after_check,
  after_start, decide,
}

-- Only ids that are an answer of the engine's create call are removed, and nothing is restarted.
abbrev pub Made : Docker → ℕ → Type 0
Made d id = (t : Trace) × (s : EngineSpec) × (d.create t s ≡ some id)

abbrev pub keeps_old : Docker → Permit
keeps_old d = record {
  may_create = λ s. Unit;
  may_start = λ id. ⊥;
  may_stop = λ id. Unit;
  may_remove = Made d;
  may_rename = λ id name. Unit;
  may_log = λ event. ⊥;
}

module _ (d : Docker) (spec : DeploymentSpec) where
  abbrev Keeps : {A : Type 0} → M A → Type 0
  Keeps m = Emits (keeps_old d) m

  abbrev AllMade : Greens → Type 0
  AllMade = All (λ (g : Text × ℕ). Made d g.1)

  stop_and_drop-Keeps : (id : ℕ) → Made d id → Keeps (stop_and_drop d id)
  unfolding stop_and_drop
  stop_and_drop-Keeps id made =
      Emits-bind (Emits-stop d id tt) λ _. Emits-bind (Emits-remove d id made) λ _. Emits-pure _

  cleanup_green-Keeps : (greens : Greens) → AllMade greens → Keeps (cleanup_green d greens)
  unfolding cleanup_green
  cleanup_green-Keeps greens h =
      Emits-for_each (λ g. Made d g.1) greens h (λ g made. stop_and_drop-Keeps g.1 made)

  put_green-Made :
      (name : Text) (id : ℕ) (greens : Greens)
      → Made d id
      → AllMade greens
      → AllMade (put_green name id greens)
  unfolding put_green
  put_green-Made name id [] made h = (made, tt)
  put_green-Made name id ((n, i) ∷ gs) made h = elim (Bool-cases (text_eq n name)) [
    | inl same ↦ rw same (made, h.1)
    | inr other ↦ rw other (h.0, put_green-Made name id gs made h.1)
  ]

  green_of-Made :
      (name : Text) (greens : Greens)
      → AllMade greens
      → (id : ℕ) → green_of name greens ≡ some id
      → Made d id
  unfolding green_of
  green_of-Made name [] h id e = cc
  green_of-Made name ((n, i) ∷ gs) h id e = elim (Bool-cases (text_eq n name)) [
    | inl same ↦
        let p : some i ≡ some id = rw same at e in let q : i ≡ id = cc in subst (Made d) q h.0
    | inr other ↦ green_of-Made name gs h.1 id (rw other at e)
  ]

  abbrev StartedMade : Started → Type 0
  StartedMade (greens_up greens) = AllMade greens
  StartedMade (start_failed e) = Unit

  -- An action that keeps the old containers and whose value satisfies `Q`.
  abbrev Yields : {A : Type 0} → (A → Type 0) → M A → Type 0
  Yields Q m = Always Q m × Keeps m

  Yields-bind :
      {A B : Type 0} (R : A → Type 0) (Q : B → Type 0) {m : M A} {f : A → M B}
      → Yields R m
      → ((a : A) → R a → Yields Q (f a))
      → Yields Q (m >>= f)
  unfolding ◌>>=◌
  Yields-bind R Q {m} (r, h) k =
      (λ t. (k (m t).0 (r t)).0 (m t).1, Emits-bind_of R r h (λ a q. (k a q).1))

  Yields-free :
      {A B : Type 0} (Q : B → Type 0) {m : M A} {f : A → M B}
      → Keeps m
      → ((a : A) → Yields Q (f a))
      → Yields Q (m >>= f)
  Yields-free Q h k = Yields-bind (λ _. Unit) Q (λ t. tt, h) (λ a _. k a)

  Yields-pure : {A : Type 0} (Q : A → Type 0) (a : A) → Q a → Yields Q (pure a)
  unfolding pure
  Yields-pure Q a q = (λ t. q, Emits-pure a)

  fail_start-Yields :
      (greens : Greens) (e : BlueGreenError)
      → AllMade greens
      → Yields StartedMade (fail_start d spec greens e)
  unfolding fail_start
  fail_start-Yields greens e h =
      Yields-free StartedMade (cleanup_green-Keeps greens h) λ _. Yields-pure StartedMade _ tt

  then_started-Yields :
      (rest : Greens → M Started) (s : Started)
      → StartedMade s
      → ((greens : Greens) → AllMade greens → Yields StartedMade (rest greens))
      → Yields StartedMade (then_started d spec rest s)
  unfolding then_started
  then_started-Yields rest (greens_up greens) h k = k greens h
  then_started-Yields rest (start_failed e) h k = Yields-pure StartedMade _ tt

  abbrev MadeBy : Option ℕ → Type 0
  MadeBy made = (id : ℕ) → made ≡ some id → Made d id

  create-Yields : (s : EngineSpec) → Yields MadeBy (create_and_start d s)
  unfolding create_and_start
  create-Yields s = (λ t id e. (t, s, e), Emits-create d s tt)

  green_made-Yields :
      (name : Text) (greens : Greens)
      → AllMade greens
      → (made : Option ℕ) → MadeBy made
      → Yields StartedMade (green_made d spec name greens made)
  unfolding green_made
  green_made-Yields name greens h none m = fail_start-Yields greens _ h
  green_made-Yields name greens h (some id) m =
      Yields-free StartedMade (Emits-report _)
        λ _. Yields-pure StartedMade _ (put_green-Made name id greens (m id refl) h)

  start_replicas-Yields :
      (c : ContainerSpec) (r n : ℕ) (greens : Greens)
      → AllMade greens
      → Yields StartedMade (start_replicas d spec c r n greens)
  unfolding start_replicas
  start_replicas-Yields c r zero greens h = Yields-pure StartedMade _ h
  start_replicas-Yields c r (suc n) greens h =
      Yields-bind MadeBy StartedMade (create-Yields _) λ made m.
        Yields-bind StartedMade StartedMade (green_made-Yields _ greens h made m)
          λ s hs. then_started-Yields _ s hs λ gs hg. start_replicas-Yields c (r + 1) n gs hg

  green_pulled-Yields :
      (ok : Bool) (c : ContainerSpec) (greens : Greens)
      → AllMade greens
      → Yields StartedMade (green_pulled d spec ok c greens)
  unfolding green_pulled
  green_pulled-Yields false c greens h = fail_start-Yields greens _ h
  green_pulled-Yields true c greens h = elim (Bool-cases (needs_green c)) [
    | inl up ↦ rw up (start_replicas-Yields c 0 (replica_count c) greens h)
    | inr left ↦ rw left (Yields-free StartedMade (Emits-report _) λ _. Yields-pure StartedMade _ h)
  ]

  start_greens-Yields :
      (cs : List ContainerSpec) (greens : Greens)
      → AllMade greens
      → Yields StartedMade (start_greens d spec cs greens)
  unfolding start_greens
  start_greens-Yields [] greens h = Yields-pure StartedMade _ h
  start_greens-Yields (c ∷ cs) greens h = Yields-free StartedMade (Emits-report _) λ _.
      Yields-free StartedMade (Emits-pull d _) λ ok.
        Yields-bind StartedMade StartedMade (green_pulled-Yields ok c greens h)
          λ s hs. then_started-Yields _ s hs λ gs hg. start_greens-Yields cs gs hg

  wait_green-Keeps : (n deadline id : ℕ) → Keeps (wait_green d n deadline id)
  unfolding wait_green
  wait_green-Keeps zero deadline id = Emits-pure _
  wait_green-Keeps (suc n) deadline id =
      let again = wait_green-Keeps n deadline id in search (free_calls, again) depth 12

  fail_check-Keeps :
      (greens : Greens) (e : BlueGreenError) → AllMade greens → Keeps (fail_check d spec greens e)
  unfolding fail_check
  fail_check-Keeps greens e h =
      Emits-bind (Emits-report _) λ _. Emits-bind (cleanup_green-Keeps greens h) λ _. Emits-pure _

  judge_green-Keeps :
      (greens : Greens) (name : Text) (info : Option Info) {rest : M (Option BlueGreenError)}
      → AllMade greens
      → Keeps rest
      → Keeps (judge_green d spec greens name info rest)
  unfolding judge_green
  judge_green-Keeps greens name info h k =
      Emits-if _ (Emits-if _ k (fail_check-Keeps greens _ h)) (fail_check-Keeps greens _ h)

  check_greens-Keeps :
      (greens left : Greens) → AllMade greens → Keeps (check_greens d spec greens left)
  unfolding check_greens
  check_greens-Keeps greens [] h = Emits-pure _
  check_greens-Keeps greens ((name, id) ∷ gs) h = Emits-bind (Emits-now d) λ t.
      Emits-bind (wait_green-Keeps wait_rounds (t + seconds 30) id) λ _.
        Emits-bind (Emits-inspect d id)
          λ info. judge_green-Keeps greens name info h (check_greens-Keeps greens gs h)

  retire-Keeps :
      (name : Text) (backups : List Backup) (blue : Option ℕ)
      → Keeps (retire d spec name backups blue)
  unfolding retire
  retire-Keeps name backups none = Emits-pure _
  retire-Keeps name backups (some id) = Emits-bind (Emits-now d) λ stamp.
      Emits-bind (Emits-rename d id _ tt) λ ok. Emits-bind (Emits-stop d id tt) λ _. Emits-pure _

  drop_green-Keeps : (green : Option ℕ) → MadeBy green → Keeps (drop_green d spec green)
  unfolding drop_green
  drop_green-Keeps none h = Emits-pure _
  drop_green-Keeps (some id) h = stop_and_drop-Keeps id (h id refl)

  verify_final-Keeps :
      (name : Text) (backups : List Backup) (id : ℕ) (info : Option Info) {rest : M Swapped}
      → Made d id
      → Keeps rest
      → Keeps (verify_final d spec name backups id info rest)
  unfolding verify_final
  verify_final-Keeps name backups id info made k =
      Emits-if _ (Emits-bind (Emits-report _) λ _. k)
        (Emits-bind (Emits-stop_and_remove d id tt made) λ _. Emits-pure _)

  final_made-Keeps :
      (name : Text) (backups : List Backup) (made : Option ℕ) {rest : M Swapped}
      → MadeBy made
      → Keeps rest
      → Keeps (final_made d spec name backups made rest)
  unfolding final_made
  final_made-Keeps name backups none h k = Emits-pure _
  final_made-Keeps name backups (some id) h k =
      Emits-bind (Emits-inspect d id) λ info. verify_final-Keeps name backups id info (h id refl) k

  module _ (greens : Greens) (made : AllMade greens) where
    swap_replicas-Keeps :
        (rest : List Backup → M Swapped)
        → ((backups : List Backup) → Keeps (rest backups))
        → (c : ContainerSpec) (r n : ℕ) (backups : List Backup)
        → Keeps (swap_replicas d spec greens rest c r n backups)
    unfolding swap_replicas
    swap_replicas-Keeps rest k c r zero backups = k backups
    swap_replicas-Keeps rest k c r (suc n) backups = Emits-bind (Emits-report _) λ _.
        Emits-bind (Emits-find d _) λ blue. Emits-bind (retire-Keeps _ backups blue) λ kept.
          Emits-bind (drop_green-Keeps _ (green_of-Made _ greens made)) λ _.
            Emits-bind_of MadeBy (create-Yields _).0 (create-Yields _).1
              λ new h. final_made-Keeps _ kept new h (swap_replicas-Keeps rest k c (r + 1) n kept)

    swap_all-Keeps :
        (cs : List ContainerSpec) (backups : List Backup)
        → Keeps (swap_all d spec greens cs backups)
    unfolding swap_all
    swap_all-Keeps [] backups = Emits-pure _
    swap_all-Keeps (c ∷ cs) backups =
        swap_replicas-Keeps _ (swap_all-Keeps cs) c 0 (replica_count c) backups

    after_check-Keeps : (e : Option BlueGreenError) → Keeps (after_check d spec greens e)
    unfolding after_check
    after_check-Keeps (some e) = Emits-pure _
    after_check-Keeps none =
        Emits-bind (Emits-report _)
          λ _. Emits-bind (swap_all-Keeps spec.containers []) λ s. Emits-pure _

  after_start-Keeps : (s : Started) → StartedMade s → Keeps (after_start d spec s)
  unfolding after_start
  after_start-Keeps (start_failed e) h = Emits-pure _
  after_start-Keeps (greens_up greens) h =
      Emits-bind (Emits-report _)
        λ _. Emits-bind (check_greens-Keeps greens greens h) λ e. after_check-Keeps greens h e

  decide-Keeps : Keeps (decide d spec)
  unfolding decide
  decide-Keeps = Emits-bind (Emits-report _) λ _.
      Emits-bind_of StartedMade (start_greens-Yields spec.containers [] tt).0
        (start_greens-Yields spec.containers [] tt).1 (after_start-Keeps)

  -- Up to the point where a blue-green deployment gives up its backups or brings them back, on every
  -- branch and with every answer of the engine, every id that it removes is an answer of the
  -- engine's create call, to some history and specification, and it restarts no container: a
  -- container that is no such answer is renamed and stopped at most.
  pub decide-keeps_old : (t : Trace) → Ran (Obeys (keeps_old d)) t (decide d spec t).1
  decide-keeps_old t = ran decide-Keeps t
