-- ===== src/Commands/Locks/Waits.antt =====
-- How the wait for a container's lock goes.
use lattice_runner.Base.{
  ℕ, zero, suc, ◌+◌, ◌*◌, ◌≤◌, ◌≡◌, refl, ap, ◌∙◌, true, false, Bool, leb, leb→le, ◌∷◌, Text, arith,
  Bool-cases, inl, inr,
}
use lattice_runner.Names.{canonical_container_name}
use lattice_runner.Commands.World.{Trace, World, ◌>>=◌, locked, refused, gave_up}
use lattice_runner.Commands.Locks.{
  lock_wait_limit, lock_poll_interval, lock_rounds, try_lock, is_late, proceed_unlocked, wait_lock,
  lock_container,
}

-- So many attempts in a row that failed, and nothing else.
pub data Tries (w : World) (c : Text) (t : Trace) : ℕ → Trace → Type 0 where
  here : Tries w c t 0 t
  again :
      {n : ℕ} {u : Trace}
      → w.try_lock u c ≡ false
      → Tries w c t n u
      → Tries w c t (suc n) (refused c ∷ u)

-- A lock that is had after attempts that failed, or a wait that is given up after a number of ticks,
-- at which it is late.
pub data Locking (w : World) (c : Text) (Late : Trace → ℕ → Type 0) (t : Trace)
    : Bool → Trace → Type 0 where
  gets :
      {n : ℕ} {u : Trace}
      → Tries w c t n u
      → w.try_lock u c ≡ true
      → Locking w c Late t true (locked c ∷ u)
  gives_up :
      {n : ℕ} {u : Trace}
      → Tries w c t (suc n) u
      → Late u n
      → Locking w c Late t false (gave_up c ∷ u)

module _ (w : World) (c : Text) (Late : Trace → ℕ → Type 0)
    (by_clock : (u : Trace) (n : ℕ) → lock_wait_limit ≤ w.waited u n → Late u n)
    (by_ticks : (u : Trace) (n : ℕ) → lock_wait_limit ≤ lock_poll_interval * n → Late u n) where
  wait_lock-Locking :
      (rounds ticks : ℕ) {t u : Trace}
      → Tries w c t (suc ticks) u
      → lock_wait_limit ≤ lock_poll_interval * (rounds + ticks)
      → Locking w c Late t (wait_lock w c rounds ticks u).0 (wait_lock w c rounds ticks u).1
  unfolding wait_lock try_lock is_late proceed_unlocked ◌>>=◌
  wait_lock-Locking zero ticks {t} {u} tries h =
      gives_up tries (by_ticks u ticks (omega (arith, h)))
  wait_lock-Locking (suc rounds) ticks {t} {u} tries h = elim (Bool-cases (w.try_lock u c)) [
    | inl taken ↦ rw taken (gets tries taken)
    | inr held ↦
        let v : Trace = refused c ∷ u in
        elim (Bool-cases (leb lock_wait_limit (w.waited v (suc ticks)))) [
          | inl late ↦
              rw (held, late)
                (gives_up (again held tries) (by_clock v (suc ticks) (leb→le _ _ late)))
          | inr early ↦
              rw (held, early)
                (wait_lock-Locking rounds (suc ticks) (again held tries) (omega (arith, h)))
        ]
  ]

  lock_container-Locking_by :
      (name : Text) (t : Trace)
      → canonical_container_name name ≡ c
      → Locking w c Late t (lock_container w name t).0 (lock_container w name t).1
  unfolding lock_container try_lock ◌>>=◌
  lock_container-Locking_by name t e = elim (Bool-cases (w.try_lock t c)) [
    | inl taken ↦ rw (e, taken) (gets here taken)
    | inr held ↦ rw (e, held) (wait_lock-Locking lock_rounds 0 (again held here) (omega arith))
  ]

abbrev pub Anyhow : Trace → ℕ → Type 0
Anyhow u n = Unit {0}

-- However long the wait took.
pub lock_container-Locking :
    (w : World) (name : Text) (t : Trace)
    → Locking w
        (canonical_container_name name)
        Anyhow
        t
        (lock_container w name t).0
        (lock_container w name t).1
lock_container-Locking w name t =
    lock_container-Locking_by w (canonical_container_name name) Anyhow (λ u n h. tt) (λ u n h. tt)
      name t refl

-- More rounds than there are ticks within the limit change nothing.
module _ (w : World) (c : Text)
    (ticks_law : (u : Trace) (n : ℕ) → lock_poll_interval * n ≤ w.waited u n) where
  late_at_limit :
      (u : Trace) (n : ℕ)
      → lock_wait_limit ≤ lock_poll_interval * n
      → leb lock_wait_limit (w.waited u n) ≡ true
  late_at_limit u n h = ground (arith, ticks_law u n, h)

  wait_lock-enough :
      (rounds total ticks : ℕ) (t : Trace)
      → rounds ≤ total
      → lock_wait_limit ≤ lock_poll_interval * (suc rounds + ticks)
      → wait_lock w c (suc total) ticks t ≡ wait_lock w c (suc rounds) ticks t
  unfolding wait_lock try_lock is_late proceed_unlocked ◌>>=◌
  wait_lock-enough zero total ticks t le h = elim (Bool-cases (w.try_lock t c)) [
    | inl taken ↦ rw taken refl
    | inr held ↦
        let late : leb lock_wait_limit (w.waited (refused c ∷ t) (suc ticks)) ≡ true =
          late_at_limit (refused c ∷ t) (suc ticks) (omega (arith, h)) in
        rw (held, late) refl
  ]
  wait_lock-enough (suc rounds) zero ticks t le h = absurd (omega arith)
  wait_lock-enough (suc rounds) (suc total) ticks t le h = elim (Bool-cases (w.try_lock t c)) [
    | inl taken ↦ rw taken refl
    | inr held ↦
        let u : Trace = refused c ∷ t in
        elim (Bool-cases (leb lock_wait_limit (w.waited u (suc ticks)))) [
          | inl late ↦ rw (held, late) refl
          | inr early ↦
              rw (held, early)
                (wait_lock-enough rounds total (suc ticks) u (omega arith) (omega (arith, h)))
        ]
  ]

-- That the wait is late.
abbrev pub IsLate : World → Trace → ℕ → Type 0
IsLate w u n = lock_wait_limit ≤ w.waited u n

-- Where the ticks of the ticker come no sooner than 250 ms after one another, a wait for the lock
-- of a container ends in one of two ways, after attempts alone, which all failed: the next attempt
-- took the lock of the canonical name and the caller is told that it has it, or the caller is told
-- that it has not, after a tick at which the wait had taken ten minutes. And 2400 rounds of the
-- wait are enough: more rounds change nothing, whatever happened before it.
pub lock_container-patient :
    (w : World) (name : Text) (t u : Trace) (extra : ℕ)
    → ((v : Trace) (n : ℕ) → lock_poll_interval * n ≤ w.waited v n)
    → Locking w
        (canonical_container_name name)
        (IsLate w)
        t
        (lock_container w name t).0
        (lock_container w name t).1
      × (wait_lock w (canonical_container_name name) (lock_rounds + extra) 0 u
          ≡ wait_lock w (canonical_container_name name) lock_rounds 0 u)
lock_container-patient w name t u extra ticks =
    let c : Text = canonical_container_name name in
    let more : lock_rounds + extra ≡ suc (2399 + extra) = omega arith in
    (
      lock_container-Locking_by w c (IsLate w) (λ v n h. h) (λ v n h. omega (arith, ticks v n, h))
          name t refl,
      ap (λ rounds. wait_lock w c rounds 0 u) more
          ∙ wait_lock-enough w c ticks 2399 (2399 + extra) 0 u (omega arith) (omega arith),
    )
