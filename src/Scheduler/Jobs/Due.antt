-- ===== src/Scheduler/Jobs/Due.antt =====
-- Which snapshots a tick starts.
use mathlib.Core.Path.{subst}
use lattice_runner.Base.{
  ℕ, true, false, ◌≡◌, ◌≢◌, ◌↔◌, ◌⊎◌, refl, sym, ap, ◌∙◌, ◌==◌, ==_refl, Any, List, [], ◌∷◌, arith,
  Bool-cases, inl, inr,
}
use lattice_runner.Scheduler.Cron.{Time, cron_matches}
use lattice_runner.Scheduler.Jobs.{
  Job, Scheduler, new, update_schedule, remove_schedule, without, has, to_fire, fire, fire_all,
  check_and_fire, finish, ids, Step, updated, removed, ticked, ended, Reached, start, then_step,
}
use lattice_runner.Scheduler.Jobs.Guard.{IsDistinct}

abbrev pub Among : Job → List Job → Type 0
Among j js = Any (λ k. k ≡ j) js

has-ids : (j : Job) (js : List Job) → Among j js → has j.instance_id (ids js) ≡ true
unfolding has ids
has-ids j [] h = absurd h
has-ids j (k ∷ js) (inl e) = rw (ap (λ (x : Job). x.instance_id) e, ==_refl j.instance_id) refl
has-ids j (k ∷ js) (inr h) =
    let later : has j.instance_id (ids js) ≡ true = has-ids j js h in ground (arith, later)

-- The jobs that are scheduled have different instances.
has-without :
    (i k : ℕ) (js : List Job) → has k (ids js) ≡ false → has k (ids (without i js)) ≡ false
unfolding without has ids
has-without i k [] h = refl
has-without i k (j ∷ js) h =
    let later : has k (ids js) ≡ false → has k (ids (without i js)) ≡ false = has-without i k js in
    ground arith

without-absent : (i : ℕ) (js : List Job) → has i (ids (without i js)) ≡ false
unfolding without has ids
without-absent i [] = refl
without-absent i (j ∷ js) = elim (Bool-cases (j.instance_id == i)) [
  | inl e ↦ rw e (without-absent i js)
  | inr e ↦ rw (e, e) (without-absent i js)
]

without-IsDistinct : (i : ℕ) (js : List Job) → IsDistinct (ids js) → IsDistinct (ids (without i js))
unfolding without ids
without-IsDistinct i [] h = tt
without-IsDistinct i (j ∷ js) h = elim (Bool-cases (j.instance_id == i)) [
  | inl e ↦ rw e (without-IsDistinct i js h.1)
  | inr e ↦ rw e (has-without i j.instance_id js h.0, without-IsDistinct i js h.1)
]

fire-jobs : (j : Job) (s : Scheduler) → (fire j s).jobs ≡ s.jobs
unfolding fire
fire-jobs j s = ground arith

fire_all-jobs : (js : List Job) (s : Scheduler) → (fire_all js s).jobs ≡ s.jobs
unfolding fire_all
fire_all-jobs [] s = refl
fire_all-jobs (j ∷ js) s = fire_all-jobs js (fire j s) ∙ fire-jobs j s

Step-IsDistinct : {s u : Scheduler} → Step s u → IsDistinct (ids s.jobs) → IsDistinct (ids u.jobs)
unfolding update_schedule remove_schedule check_and_fire finish ids
Step-IsDistinct (updated job s) d =
    (without-absent job.instance_id s.jobs, without-IsDistinct job.instance_id s.jobs d)
Step-IsDistinct (removed i s) d = without-IsDistinct i s.jobs d
Step-IsDistinct (ticked t s) d =
    subst (λ js. IsDistinct (ids js)) (sym (fire_all-jobs (to_fire t s.jobs) s)) d
Step-IsDistinct (ended i s h) d = d

Reached-IsDistinct : {s : Scheduler} → Reached s → IsDistinct (ids s.jobs)
Reached-IsDistinct start = unfold new ids in tt
Reached-IsDistinct (then_step r step) = Step-IsDistinct step (Reached-IsDistinct r)

-- The jobs whose time it is.
module _ (t : Time) where
  has-to_fire :
      (k : ℕ) (js : List Job) → has k (ids js) ≡ false → has k (ids (to_fire t js)) ≡ false
  unfolding to_fire has ids
  has-to_fire k [] h = refl
  has-to_fire k (j ∷ js) h =
      let later : has k (ids js) ≡ false → has k (ids (to_fire t js)) ≡ false = has-to_fire k js in
      ground arith

  to_fire-IsDistinct : (js : List Job) → IsDistinct (ids js) → IsDistinct (ids (to_fire t js))
  unfolding to_fire ids
  to_fire-IsDistinct [] h = tt
  to_fire-IsDistinct (j ∷ js) h = elim (Bool-cases (cron_matches j.cron t)) [
    | inl e ↦ rw e (has-to_fire j.instance_id js h.0, to_fire-IsDistinct js h.1)
    | inr e ↦ rw e (to_fire-IsDistinct js h.1)
  ]

  to_fire-due :
      (j : Job) (js : List Job) → Among j js → cron_matches j.cron t ≡ true → Among j (to_fire t js)
  unfolding to_fire
  to_fire-due j [] h due = absurd h
  to_fire-due j (k ∷ js) (inl e) due =
      let now : cron_matches k.cron t ≡ true =
        subst (λ (x : Job). cron_matches x.cron t ≡ true) (sym e) due in
      rw now (inl e)
  to_fire-due j (k ∷ js) (inr h) due = elim (Bool-cases (cron_matches k.cron t)) [
    | inl c ↦ rw c (inr (to_fire-due j js h due))
    | inr c ↦ rw c (to_fire-due j js h due)
  ]

  to_fire-only :
      (j : Job) (js : List Job)
      → Among j (to_fire t js)
      → Among j js × (cron_matches j.cron t ≡ true)
  unfolding to_fire
  to_fire-only j [] h = absurd h
  to_fire-only j (k ∷ js) h = elim (Bool-cases (cron_matches k.cron t)) [
    | inl c ↦
        let among : Among j (k ∷ to_fire t js) = rw c at h in
        elim among [
          | inl e ↦ (inl e, subst (λ (x : Job). cron_matches x.cron t ≡ true) e c)
          | inr m ↦ (inr (to_fire-only j js m).0, (to_fire-only j js m).1)
        ]
    | inr c ↦
        let among : Among j (to_fire t js) = rw c at h in
        (inr (to_fire-only j js among).0, (to_fire-only j js among).1)
  ]

-- What is started of a list of jobs.
fire-keeps : (j k : Job) (s : Scheduler) → Among j s.running → Among j (fire k s).running
unfolding fire
fire-keeps j k s h = elim (Bool-cases (has k.instance_id s.inflight)) [
  | inl e ↦ rw e h
  | inr e ↦ rw e (inr h)
]

fire_all-keeps :
    (j : Job) (js : List Job) (s : Scheduler) → Among j s.running → Among j (fire_all js s).running
unfolding fire_all
fire_all-keeps j [] s h = h
fire_all-keeps j (k ∷ js) s h = fire_all-keeps j js (fire k s) (fire-keeps j k s h)

fire-starts :
    (j k : Job) (s : Scheduler)
    → k ≡ j
    → has j.instance_id s.inflight ≡ false
    → Among j (fire k s).running
unfolding fire
fire-starts j k s e free =
    let free_then : has k.instance_id s.inflight ≡ false =
      subst (λ (x : Job). has x.instance_id s.inflight ≡ false) (sym e) free in
    rw free_then (inl e)

fire-other :
    (i : ℕ) (k : Job) (s : Scheduler)
    → has i s.inflight ≡ false
    → k.instance_id ≢ i
    → has i (fire k s).inflight ≡ false
unfolding fire has
fire-other i k s free ne = ground arith

fire_all-starts :
    (j : Job) (js : List Job) (s : Scheduler)
    → IsDistinct (ids js)
    → Among j js
    → has j.instance_id s.inflight ≡ false
    → Among j (fire_all js s).running
unfolding fire_all ids
fire_all-starts j [] s d h free = absurd h
fire_all-starts j (k ∷ js) s d (inl e) free =
    fire_all-keeps j js (fire k s) (fire-starts j k s e free)
fire_all-starts j (k ∷ js) s d (inr h) free =
    let ne : k.instance_id ≢ j.instance_id =
      λ e. cc (subst (λ i. has i (ids js) ≡ false) e d.0, has-ids j js h) in
    fire_all-starts j js (fire k s) d.1 h (fire-other j.instance_id k s free ne)

fire-only :
    (j k : Job) (s : Scheduler)
    → Among j (fire k s).running
    → Among j s.running ⊎ ((k ≡ j) × (has j.instance_id s.inflight ≡ false))
unfolding fire
fire-only j k s h = elim (Bool-cases (has k.instance_id s.inflight)) [
  | inl e ↦ inl (rw e at h)
  | inr e ↦
      let among : Among j (k ∷ s.running) = rw e at h in
      elim among [
        | inl p ↦ inr (p, subst (λ (x : Job). has x.instance_id s.inflight ≡ false) p e)
        | inr m ↦ inl m
      ]
]

fire-was_free :
    (i : ℕ) (k : Job) (s : Scheduler) → has i (fire k s).inflight ≡ false → has i s.inflight ≡ false
unfolding fire has
fire-was_free i k s h = ground arith

fire_all-only :
    (j : Job) (js : List Job) (s : Scheduler)
    → Among j (fire_all js s).running
    → Among j s.running ⊎ (Among j js × (has j.instance_id s.inflight ≡ false))
unfolding fire_all
fire_all-only j [] s h = inl h
fire_all-only j (k ∷ js) s h = elim (fire_all-only j js (fire k s) h) [
  | inl m ↦ elim (fire-only j k s m) [ inl older ↦ inl older | inr (p, free) ↦ inr (inl p, free) ]
  | inr (m, free) ↦ inr (inr m, fire-was_free j.instance_id k s free)
]

-- In every state that a scheduler can reach, a tick starts exactly the snapshots that are due and
-- not in flight: after it, the snapshot of a job is running if and only if it was running before,
-- or the job is scheduled, its cron expression matches the time and its instance was not in flight.
pub check_and_fire-starts :
    {s : Scheduler}
    → Reached s
    → (t : Time) (j : Job)
    → Among j (check_and_fire t s).running ↔ (
        Among j s.running
        ⊎ (Among j s.jobs
            × (cron_matches j.cron t ≡ true)
            × (has j.instance_id s.inflight ≡ false)))
unfolding check_and_fire
check_and_fire-starts {s} r t j = (
  λ h. elim (fire_all-only j (to_fire t s.jobs) s h) [
    | inl m ↦ inl m
    | inr (m, free) ↦ inr ((to_fire-only t j s.jobs m).0, (to_fire-only t j s.jobs m).1, free)
  ],
  λ h. elim h [
    | inl m ↦ fire_all-keeps j (to_fire t s.jobs) s m
    | inr (m, due, free) ↦
        fire_all-starts j (to_fire t s.jobs) s (to_fire-IsDistinct t s.jobs (Reached-IsDistinct r))
          (to_fire-due t j s.jobs m due) free
  ],
)
