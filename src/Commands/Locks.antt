-- ===== src/Commands/Locks.antt =====
-- LockContainer of deploy/locks.go, with its wait: a lock that stays held past the limit is gone
-- without. The mutexes themselves are those of Go.
pub mod Waits
use lattice_runner.Base.{ℕ, zero, suc, Bool, true, false, leb, ◌∷◌, Text, if◌then◌else◌}
use lattice_runner.Names.{canonical_container_name}
use lattice_runner.Commands.World.{World, M, ◌>>=◌, ◌>>◌, locked, refused, gave_up, unlocked}

-- LOCK_WAIT_LIMIT and lockPollInterval, in milliseconds.
abbrev pub lock_wait_limit : ℕ
lock_wait_limit = 600000

abbrev pub lock_poll_interval : ℕ
lock_poll_interval = 250

-- The ticks within the limit, which are the rounds of the model.
abbrev pub lock_rounds : ℕ
lock_rounds = 2400

module _ (w : World) (canonical : Text) where
  -- mu.TryLock()
  try_lock : M Bool
  try_lock t =
      if w.try_lock t canonical
      then (true, locked canonical ∷ t)
      else (false, refused canonical ∷ t)

  proceed_unlocked : M Bool
  proceed_unlocked t = (false, gave_up canonical ∷ t)

  -- time.Since(start) >= LOCK_WAIT_LIMIT
  is_late : ℕ → M Bool
  is_late tick t = (leb lock_wait_limit (w.waited t tick), t)

  -- The loop over the ticks, after some of them, with the rounds that are left. The channel of a
  -- ticker is never closed, so the loop has no other end; with no round left it is given up too, which
  -- a ticker that keeps its interval does not come to.
  pub wait_lock : ℕ → ℕ → M Bool
  unfolding try_lock proceed_unlocked is_late
  wait_lock zero ticks = proceed_unlocked
  wait_lock (suc rounds) ticks =
      let wait_on : M Bool = wait_lock rounds (suc ticks) in
      do
        taken ← try_lock
        late ← is_late (suc ticks)
        if taken then (λ t. (true, t)) else if late then proceed_unlocked else wait_on

-- Whether the lock is had, so whether the function that is returned unlocks anything.
pub lock_container : World → Text → M Bool
unfolding try_lock
lock_container w name =
    let canonical : Text = canonical_container_name name in
    do
      taken ← try_lock w canonical
      if taken then (λ t. (true, t)) else wait_lock w canonical lock_rounds 0

-- The function that LockContainer returned, called.
unfoldable pub unlock_container : Text → Bool → M (Unit {0})
unlock_container name true t = (tt, unlocked (canonical_container_name name) ∷ t)
unlock_container name false t = (tt, t)
