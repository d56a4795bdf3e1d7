-- ===== src/Deploy/BlueGreen/Wait.antt =====
-- The rounds of the wait for a green container are enough for its window.
use lattice_runner.Base.{
  ℕ, zero, suc, ◌+◌, ◌*◌, ◌≤◌, ◌≡◌, refl, false, ltb, Bool-cases, inl, inr, arith, ◌∷◌,
}
use lattice_runner.Docker.{
  Trace, Docker, ◌>>=◌, pure, sleep, now, inspect_container, inspected, slept,
}
use lattice_runner.Deploy.Canary.{seconds}
use lattice_runner.Deploy.Canary.Window.{ClockLaws}
use lattice_runner.Deploy.BlueGreen.{good_enough, wait_green, wait_rounds}

module _ (d : Docker) (laws : ClockLaws d) where
  wait_green-over :
      (k deadline id : ℕ) (t : Trace)
      → deadline ≤ d.clock t
      → wait_green d k deadline id t ≡ pure tt t
  unfolding wait_green ◌>>=◌ now pure
  wait_green-over zero deadline id t h = refl
  wait_green-over (suc k) deadline id t h =
      let late : ltb (d.clock t) deadline ≡ false = ground arith in rw late refl

  wait_green-more :
      (n m deadline id : ℕ) (t : Trace)
      → n ≤ m
      → deadline ≤ d.clock t + n * seconds 2
      → wait_green d m deadline id t ≡ wait_green d n deadline id t
  unfolding wait_green ◌>>=◌ now pure sleep inspect_container
  wait_green-more zero m deadline id t le h = wait_green-over m deadline id t (omega arith)
  wait_green-more (suc n) zero deadline id t le h = absurd (omega arith)
  wait_green-more (suc n) (suc m) deadline id t le h =
      elim (Bool-cases (ltb (d.clock t) deadline)) [
        | inr late ↦ rw late refl
        | inl early ↦ elim (Bool-cases (good_enough (d.inspect t id))) [
          | inl good ↦ rw (early, good) refl
          | inr bad ↦
              let u = inspected id (d.inspect t id) ∷ t in
              let later : deadline ≤ d.clock (slept 2000 ∷ u) + n * seconds 2 =
                omega (arith, h, laws.sleeps 2000 u, laws.inspects id (d.inspect t id) t) in
              rw (early, bad) (wait_green-more n m deadline id (slept 2000 ∷ u) (omega arith) later)
        ]
      ]

  -- More rounds than `wait_rounds` do not change the wait for a green container, whose window is 30
  -- seconds, with an engine whose clock does not go back, whose waits take their time and whose
  -- inspections take some.
  pub wait_green-enough :
      (k id : ℕ) (t : Trace)
      → wait_green d (wait_rounds + k) (d.clock t + seconds 30) id t
        ≡ wait_green d wait_rounds (d.clock t + seconds 30) id t
  wait_green-enough k id t =
      wait_green-more wait_rounds (wait_rounds + k) (d.clock t + seconds 30) id t (omega arith)
        (omega arith)
