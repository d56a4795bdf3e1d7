-- ===== src/Deploy/Canary/Window.antt =====
-- The monitoring window of the canary is as long as its six waits, so it never outlives them.
use lattice_runner.Base.{
  ℕ, zero, suc, ◌+◌, ◌*◌, ◌≤◌, ◌<◌, ◌≡◌, ◌≢◌, Bool, true, false, Option, none, some, List, [], ◌∷◌,
  arith, Bool-cases, inl, inr,
}
use lattice_runner.Docker.{
  Info, Event, inspected, slept, reported, Trace, Docker, ◌>>=◌, pure, sleep, report, now,
  inspect_container, stop_container, remove_container, pull_image, create_and_start,
}
use lattice_runner.Deploy.Spec.{ContainerSpec, DeploymentSpec}
use lattice_runner.Deploy.Rolling.{deploying}
use lattice_runner.Deploy.Canary.{
  seconds, canary_monitor_duration, done_first, passes, context_wins, monitor_checks,
  monitor_canary, conclude, watch_canary, after_canary_pull, canary_first, execute_canary,
}

-- The clock never goes back, a wait takes its time, and an inspection takes some time.
pub record ClockLaws (d : Docker) : Type 0 where
  pub ticks : (e : Event) (t : Trace) → d.clock t ≤ d.clock (e ∷ t)
  pub sleeps : (ms : ℕ) (t : Trace) → d.clock t + ms * 1_000_000 ≤ d.clock (slept ms ∷ t)
  pub inspects :
      (id : ℕ) (info : Option Info) (t : Trace) → d.clock t < d.clock (inspected id info ∷ t)

module _ (d : Docker) (laws : ClockLaws d) where
  -- The trace behind one check that was not cut short.
  abbrev checked : ℕ → Trace → Trace
  checked id t = reported deploying ∷ inspected id (d.inspect (slept 5000 ∷ t) id) ∷ slept 5000 ∷ t

  checked-clock : (id : ℕ) (t : Trace) → d.clock t + seconds 5 < d.clock (checked id t)
  checked-clock id t = omega (
    arith,
    laws.sleeps 5000 t,
    laws.inspects id (d.inspect (slept 5000 ∷ t) id) (slept 5000 ∷ t),
    laws.ticks (reported deploying) (inspected id (d.inspect (slept 5000 ∷ t) id) ∷ slept 5000 ∷ t),
  )

  done_before :
      (deadline : ℕ) (t : Trace) → deadline < d.clock t + seconds 5 → done_first d deadline t ≡ true
  unfolding done_first
  done_before deadline t h = ground arith

  checks_fail :
      (n deadline id : ℕ) (t : Trace)
      → deadline < d.clock t + suc n * seconds 5
      → (monitor_checks d (suc n) deadline id t).0 ≡ false
  unfolding monitor_checks ◌>>=◌ pure context_wins sleep report inspect_container
  checks_fail zero deadline id t h = rw (done_before deadline t (omega arith))
  checks_fail (suc n) deadline id t h = elim (Bool-cases (done_first d deadline t)) [
    | inl done ↦ rw done
    | inr timer ↦ rw timer (elim (Bool-cases (passes (d.inspect (slept 5000 ∷ t) id))) [
      | inl good ↦
          rw good (checks_fail n deadline id (checked id t) (omega (arith, checked-clock id t)))
      | inr bad ↦ rw bad
    ])
  ]

  -- The first check can pass, and costs more than its share of the window.
  pub monitor_canary-false :
      (id : ℕ) (t : Trace) → (monitor_canary d (d.clock t + canary_monitor_duration) id t).0 ≡ false
  unfolding monitor_canary monitor_checks ◌>>=◌ pure context_wins sleep report inspect_container
  monitor_canary-false id t =
      let deadline = d.clock t + canary_monitor_duration in
      elim (Bool-cases (done_first d deadline t)) [
        | inl done ↦ rw done
        | inr timer ↦ rw timer (elim (Bool-cases (passes (d.inspect (slept 5000 ∷ t) id))) [
          | inl good ↦
              rw good (checks_fail 4 deadline id (checked id t) (omega (arith, checked-clock id t)))
          | inr bad ↦ rw bad
        ])
      ]

  module _ (spec : DeploymentSpec) where
    watch-error : (made : Option ℕ) (t : Trace) → (watch_canary d spec made t).0 ≢ none
    unfolding watch_canary ◌>>=◌ pure report now stop_container remove_container conclude
    watch-error none t = λ e. cc
    watch-error (some id) t = rw (monitor_canary-false id (reported deploying ∷ t)) (λ e. cc)

    pull-error :
        (ok : Bool) (c : ContainerSpec) (t : Trace) → (after_canary_pull d spec ok c t).0 ≢ none
    unfolding after_canary_pull ◌>>=◌ pure report create_and_start
    pull-error false c t = λ e. cc
    pull-error true c t = watch-error _ _

    first-error : (cs : List ContainerSpec) (t : Trace) → (canary_first d spec cs t).0 ≢ none
    unfolding canary_first ◌>>=◌ pure report pull_image
    first-error [] t = λ e. cc
    first-error (c ∷ cs) t = pull-error _ c _

    -- No canary deployment succeeds, however healthy its canary is: the window ends before the
    -- sixth wait does, and the check then reports the canary as unhealthy. It holds of every engine
    -- whose clock keeps the laws: it does not go back, a wait takes its time, an inspection takes
    -- some.
    pub execute_canary-fails : (t : Trace) → (execute_canary d spec t).0 ≢ none
    unfolding execute_canary
    execute_canary-fails t = first-error spec.containers t
