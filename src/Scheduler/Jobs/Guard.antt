-- ===== src/Scheduler/Jobs/Guard.antt =====
-- Two snapshots of one instance never run at once.
use mathlib.Core.Path.{subst}
use lattice_runner.Base.{
  ℕ, false, ◌≡◌, refl, sym, ap, ◌∙◌, ◌==◌, ==_iff, List, [], ◌∷◌, arith, Bool-cases, inl, inr,
}
use lattice_runner.Scheduler.Jobs.{
  Job, Scheduler, new, update_schedule, remove_schedule, has, to_fire, fire, fire_all,
  check_and_fire, delete, drop_first, finish, ids, Step, updated, removed, ticked, ended, Reached,
  start, then_step,
}

-- No number stands in the list twice.
abbrev pub IsDistinct : List ℕ → Type 0
IsDistinct [] = Unit
IsDistinct (k ∷ ks) = (has k ks ≡ false) × IsDistinct ks

-- The guard holds the instances of the running snapshots, each once.
pub record IsGuarded (s : Scheduler) : Type 0 where
  pub same : ids s.running ≡ s.inflight
  pub once : IsDistinct s.inflight

delete_absent : (i : ℕ) (ks : List ℕ) → has i ks ≡ false → delete i ks ≡ ks
unfolding delete has
delete_absent i [] h = refl
delete_absent i (k ∷ ks) h = elim (Bool-cases (k == i)) [
  | inl e ↦ absurd (cc (rw e at h))
  | inr e ↦ rw e (ap (λ rest. k ∷ rest) (delete_absent i ks (rw e at h)))
]

has-delete : (k i : ℕ) (ks : List ℕ) → has k ks ≡ false → has k (delete i ks) ≡ false
unfolding delete has
has-delete k i [] h = refl
has-delete k i (m ∷ ks) h =
    let later : has k ks ≡ false → has k (delete i ks) ≡ false = has-delete k i ks in ground arith

delete-IsDistinct : (i : ℕ) (ks : List ℕ) → IsDistinct ks → IsDistinct (delete i ks)
unfolding delete
delete-IsDistinct i [] h = tt
delete-IsDistinct i (k ∷ ks) h = elim (Bool-cases (k == i)) [
  | inl e ↦ rw e (delete-IsDistinct i ks h.1)
  | inr e ↦ rw e (has-delete k i ks h.0, delete-IsDistinct i ks h.1)
]

ids-drop_first :
    (i : ℕ) (js : List Job) → IsDistinct (ids js) → ids (drop_first i js) ≡ delete i (ids js)
unfolding ids drop_first delete has
ids-drop_first i [] h = refl
ids-drop_first i (j ∷ js) h = elim (Bool-cases (j.instance_id == i)) [
  | inl e ↦
      let p : j.instance_id ≡ i = (==_iff j.instance_id i).0 e in
      rw e (sym (delete_absent i (ids js) (subst (λ x. has x (ids js) ≡ false) p h.0)))
  | inr e ↦ rw e (ap (λ rest. j.instance_id ∷ rest) (ids-drop_first i js h.1))
]

fire-IsGuarded : (j : Job) (s : Scheduler) → IsGuarded s → IsGuarded (fire j s)
unfolding fire ids
fire-IsGuarded j s g = elim (Bool-cases (has j.instance_id s.inflight)) [
  | inl e ↦ rw e g
  | inr e ↦ rw e (record { same = ap (λ rest. j.instance_id ∷ rest) g.same; once = (e, g.once) })
]

fire_all-IsGuarded : (js : List Job) (s : Scheduler) → IsGuarded s → IsGuarded (fire_all js s)
unfolding fire_all
fire_all-IsGuarded [] s g = g
fire_all-IsGuarded (j ∷ js) s g = fire_all-IsGuarded js (fire j s) (fire-IsGuarded j s g)

finish-IsGuarded : (i : ℕ) (s : Scheduler) → IsGuarded s → IsGuarded (finish i s)
unfolding finish
finish-IsGuarded i s g =
    let distinct : IsDistinct (ids s.running) = subst IsDistinct (sym g.same) g.once in
    record {
      same = ids-drop_first i s.running distinct ∙ ap (delete i) g.same;
      once = delete-IsDistinct i s.inflight g.once;
    }

Step-IsGuarded : {s u : Scheduler} → Step s u → IsGuarded s → IsGuarded u
unfolding update_schedule remove_schedule check_and_fire
Step-IsGuarded (updated job s) g = record { same = g.same; once = g.once }
Step-IsGuarded (removed i s) g = record { same = g.same; once = g.once }
Step-IsGuarded (ticked t s) g = fire_all-IsGuarded (to_fire t s.jobs) s g
Step-IsGuarded (ended i s h) g = finish-IsGuarded i s g

-- In every state that a scheduler can reach, whatever is scheduled, fired and finished in whatever
-- order, the guard holds exactly the instances of the running snapshots, and no instance has two.
pub Reached-IsGuarded : {s : Scheduler} → Reached s → IsGuarded s
Reached-IsGuarded start = unfold new ids in record { same = refl; once = tt }
Reached-IsGuarded (then_step r step) = Step-IsGuarded step (Reached-IsGuarded r)
