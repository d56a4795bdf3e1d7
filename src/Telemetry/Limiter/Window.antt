-- ===== src/Telemetry/Limiter/Window.antt =====
-- How many warnings go through within one window.
use mathlib.Core.Path.{subst}
use lattice_runner.Base.{
  ℕ, ◌+◌, ◌≤◌, ◌<◌, ◌≡◌, refl, sym, false, ◌&&◌, Option, none, some, List, [], ◌∷◌, Text, text_eq,
  text_eq_iff, text_eq_refl, if◌then◌else◌, length, All, Bool-cases, Option-cases, inl, inr, arith,
}
use lattice_runner.Telemetry.Limiter.{
  sweep_at, WarnWindow, WarnLimiter, find, put, is_over, window_for, judge, allow,
}
use lattice_runner.Telemetry.Limiter.Counts.{
  Call, passed, swept, swept-room, current, length-allow_room,
}

find-put :
    (key k : Text) (w : WarnWindow) (m : List (Text × WarnWindow))
    → find key (put k w m) ≡ (if text_eq k key then some w else find key m)
unfolding find put
find-put key k w [] = refl
find-put key k w ((j, v) ∷ m) =
    ground (arith, text_eq_iff j k, text_eq_iff j key, text_eq_iff k key, find-put key k w m)

-- What a key has sent, and that its window, if there is one, began at some time or after it.
abbrev sent_of : Option WarnWindow → ℕ
sent_of none = 0
sent_of (some w) = w.sent

abbrev Began : ℕ → Option WarnWindow → Type 0
Began t0 none = Unit {0}
Began t0 (some w) = t0 ≤ w.start

judge-sent :
    (limit : ℕ) (w : WarnWindow)
    → w.sent ≤ limit
    → ((judge limit w).0.sent ≡ w.sent + (if (judge limit w).1 then 1 else 0))
      × ((judge limit w).0.sent ≤ limit)
      × ((judge limit w).0.start ≡ w.start)
unfolding judge
judge-sent limit w h = ground arith

-- The window of a call: a new one, or the one that there is.
counting : Option WarnWindow → ℕ → WarnLimiter → WarnWindow
unfolding current
counting none t l = record { start = t; sent = 0; suppressed = 0 }
counting (some w) t l = current t l w

-- What a call judges and writes, where there is room for its key.
record Judged (k : Text) (t : ℕ) (l : WarnLimiter) (w : WarnWindow) : Type 0 where
  answer : (allow k t l).1 ≡ (judge l.limit w).1
  keys_then :
      (key : Text)
      → find key (allow k t l).0.keys
        ≡ (if text_eq k key then some (judge l.limit w).0 else find key l.keys)

allow-Judged :
    (k : Text) (t : ℕ) (l : WarnLimiter)
    → length l.keys < sweep_at
    → Judged k t l (counting (find k l.keys) t l)
unfolding allow window_for counting current swept
allow-Judged k t l room = elim (Option-cases (find k l.keys)) [
  | inl e ↦
      let fresh : WarnWindow = record { start = t; sent = 0; suppressed = 0 } in
      rw e (record {
        answer = rw e refl;
        keys_then = λ key.
            let p : find key (put k (judge l.limit fresh).0 (swept t l))
                ≡ (if text_eq k key then some (judge l.limit fresh).0 else find key l.keys) =
              rw (find-put key k (judge l.limit fresh).0 (swept t l), swept-room t l room) refl in
            rw e p;
      })
  | inr (w, e) ↦ rw e (record {
    answer = rw e refl;
    keys_then = λ key. rw e (find-put key k (judge l.limit (current t l w)).0 l.keys);
  })
]

-- Inside the time of a window that began at `t0` or later, a call counts in it.
counting-sent :
    (o : Option WarnWindow) (t0 t : ℕ) (l : WarnLimiter)
    → Began t0 o
    → t0 ≤ t
    → t < t0 + l.window
    → ((counting o t l).sent ≡ sent_of o) × (t0 ≤ (counting o t l).start)
unfolding counting current is_over
counting-sent none t0 t l b h k = (refl, h)
counting-sent (some w) t0 t l b h k = ground arith

-- One call, for any key.
record Counted (key k : Text) (t0 t : ℕ) (l : WarnLimiter) : Type 0 where
  began : Began t0 (find key (allow k t l).0.keys)
  within : sent_of (find key (allow k t l).0.keys) ≤ l.limit
  more :
      sent_of (find key (allow k t l).0.keys)
      ≡ sent_of (find key l.keys) + (if text_eq k key && (allow k t l).1 then 1 else 0)

counted_own :
    (key : Text) (t0 t : ℕ) (l : WarnLimiter)
    → length l.keys < sweep_at
    → t0 ≤ t
    → t < t0 + l.window
    → Began t0 (find key l.keys)
    → sent_of (find key l.keys) ≤ l.limit
    → Counted key key t0 t l
counted_own key t0 t l room early late b h =
    let w : WarnWindow = counting (find key l.keys) t l in
    let j : Judged key t l w = allow-Judged key t l room in
    let (same, begun) = counting-sent (find key l.keys) t0 t l b early late in
    let (more, within, start) = judge-sent l.limit w (omega arith) in
    let e : find key (allow key t l).0.keys ≡ some (judge l.limit w).0 =
      rw (j.keys_then key, text_eq_refl key) refl in
    record {
      began = rw e (omega arith);
      within = rw e within;
      more = rw (e, text_eq_refl key, j.answer) (omega arith);
    }

counted_other :
    (key k : Text) (t0 t : ℕ) (l : WarnLimiter)
    → length l.keys < sweep_at
    → text_eq k key ≡ false
    → Began t0 (find key l.keys)
    → sent_of (find key l.keys) ≤ l.limit
    → Counted key k t0 t l
counted_other key k t0 t l room other b h =
    let j : Judged k t l (counting (find k l.keys) t l) = allow-Judged k t l room in
    let e : find key (allow k t l).0.keys ≡ find key l.keys = rw (j.keys_then key, other) refl in
    record { began = rw e b; within = rw e h; more = rw (e, other) (omega arith) }

counted :
    (key k : Text) (t0 t : ℕ) (l : WarnLimiter)
    → length l.keys < sweep_at
    → t0 ≤ t
    → t < t0 + l.window
    → Began t0 (find key l.keys)
    → sent_of (find key l.keys) ≤ l.limit
    → Counted key k t0 t l
counted key k t0 t l room early late b h = elim (Bool-cases (text_eq k key)) [
  | inl same ↦
      let p : key ≡ k = sym ((text_eq_iff k key).0 same) in
      subst (λ m. Counted key m t0 t l) p (counted_own key t0 t l room early late b h)
  | inr other ↦ counted_other key k t0 t l room other b h
]

-- What went through and what the window has sent.
passed-le_from :
    (key : Text) (t0 : ℕ) (calls : List Call) (l : WarnLimiter)
    → length l.keys + length calls ≤ sweep_at
    → All (λ (c : Call). (t0 ≤ c.1) × (c.1 < t0 + l.window)) calls
    → Began t0 (find key l.keys)
    → sent_of (find key l.keys) ≤ l.limit
    → passed key calls l + sent_of (find key l.keys) ≤ l.limit
unfolding passed allow
passed-le_from key t0 [] l room times b h = omega (arith, h)
passed-le_from key t0 ((k, t) ∷ calls) l room times b h =
    let roomy : length l.keys < sweep_at = omega arith in
    let c : Counted key k t0 t l = counted key k t0 t l roomy times.0.0 times.0.1 b h in
    let room_then : length (allow k t l).0.keys + length calls ≤ sweep_at =
      omega (arith, length-allow_room k t l roomy) in
    let rest : passed key calls (allow k t l).0 + sent_of (find key (allow k t l).0.keys)
        ≤ l.limit =
      passed-le_from key t0 calls (allow k t l).0 room_then times.1 c.began c.within in
    omega (arith, rest, c.more)

-- At most `limit` warnings with one key go through within a window that begins with the key: among
-- calls with any keys, in any order, at times of one window's length, of a limiter that does not
-- know the key yet, where the number of its keys and the number of the calls are at most 4096
-- together.
pub passed-le :
    (key : Text) (t0 : ℕ) (calls : List Call) (l : WarnLimiter)
    → length l.keys + length calls ≤ sweep_at
    → All (λ (c : Call). (t0 ≤ c.1) × (c.1 < t0 + l.window)) calls
    → find key l.keys ≡ none
    → passed key calls l ≤ l.limit
passed-le key t0 calls l room times new =
    let all_time : passed key calls l + sent_of (find key l.keys) ≤ l.limit =
      passed-le_from key t0 calls l room times (rw new tt) (rw new (omega arith)) in
    omega arith
