-- ===== src/Telemetry/Limiter/Counts.antt =====
-- What the limiter lets through, holds back and remembers, over any calls.
use lattice_runner.Base.{
  ℕ, ◌+◌, ◌≤◌, ◌<◌, ◌≡◌, refl, ap, not, ◌&&◌, leb, none, some, List, [], ◌∷◌, Text, text_eq,
  text_eq_iff, if◌then◌else◌, length, Option-cases, inl, inr, arith,
}
use lattice_runner.Telemetry.Limiter.{
  sweep_at, WarnWindow, WarnLimiter, find, put, is_over, keep_live, sweep, window_for, judge, allow,
}

-- A call of allow: its key, and its time.
abbrev pub Call : Type 0
Call = Text × ℕ

unfoldable pub run : List Call → WarnLimiter → WarnLimiter
run [] l = l
run ((k, t) ∷ calls) l = run calls (allow k t l).0

-- For the calls with a key: how many are allowed, how many are held back, and what those that are
-- allowed report.
unfoldable pub passed : Text → List Call → WarnLimiter → ℕ
passed key [] l = 0
passed key ((k, t) ∷ calls) l =
    (if text_eq k key && (allow k t l).1 then 1 else 0) + passed key calls (allow k t l).0

unfoldable pub held_back : Text → List Call → WarnLimiter → ℕ
held_back key [] l = 0
held_back key ((k, t) ∷ calls) l =
    (if text_eq k key && not (allow k t l).1 then 1 else 0) + held_back key calls (allow k t l).0

unfoldable pub reported : Text → List Call → WarnLimiter → ℕ
reported key [] l = 0
reported key ((k, t) ∷ calls) l =
    (if text_eq k key then (allow k t l).2 else 0) + reported key calls (allow k t l).0

-- What the windows of a key have held back and not reported.
unfoldable pub owing : Text → List (Text × WarnWindow) → ℕ
owing key [] = 0
owing key ((k, w) ∷ m) = (if text_eq k key then w.suppressed else 0) + owing key m

length-put :
    (k : Text) (w : WarnWindow) (m : List (Text × WarnWindow)) → length (put k w m) ≤ length m + 1
unfolding put
length-put k w [] = omega arith
length-put k w ((j, v) ∷ m) = ground (arith, length-put k w m)

length-put_found :
    (k : Text) (w v : WarnWindow) (m : List (Text × WarnWindow))
    → find k m ≡ some v
    → length (put k w m) ≡ length m
unfolding put find
length-put_found k w v [] h = absurd (cc)
length-put_found k w v ((j, x) ∷ m) h = ground (arith, h, length-put_found k w v m)

length-sweep :
    (window now : ℕ) (m : List (Text × WarnWindow)) → length (sweep window now m) < sweep_at
unfolding sweep
length-sweep window now m = ground arith

owing-put_found :
    (key k : Text) (w v : WarnWindow) (m : List (Text × WarnWindow))
    → find k m ≡ some v
    → owing key (put k w m) + (if text_eq k key then v.suppressed else 0)
      ≡ owing key m + (if text_eq k key then w.suppressed else 0)
unfolding put find owing
owing-put_found key k w v [] h = absurd (cc)
owing-put_found key k w v ((j, x) ∷ m) h =
    ground
      (arith, h, text_eq_iff j k, text_eq_iff j key, text_eq_iff k key, owing-put_found key k w v m)

owing-put_new :
    (key k : Text) (w : WarnWindow) (m : List (Text × WarnWindow))
    → find k m ≡ none
    → owing key (put k w m) ≡ owing key m + (if text_eq k key then w.suppressed else 0)
unfolding put find owing
owing-put_new key k w [] h = ground arith
owing-put_new key k w ((j, x) ∷ m) h = ground (arith, h, owing-put_new key k w m)

find-keep_live :
    (k : Text) (window now : ℕ) (m : List (Text × WarnWindow))
    → find k m ≡ none
    → find k (keep_live window now m) ≡ none
unfolding find keep_live
find-keep_live k window now [] h = refl
find-keep_live k window now ((j, w) ∷ m) h = ground (arith, h, find-keep_live k window now m)

-- A sweep of the live windows forgets no count.
owing-keep_live :
    (key : Text) (window now : ℕ) (m : List (Text × WarnWindow))
    → owing key (keep_live window now m) ≡ owing key m
unfolding owing keep_live
owing-keep_live key window now [] = refl
owing-keep_live key window now ((k, w) ∷ m) = ground (arith, owing-keep_live key window now m)

judge-owes :
    (limit : ℕ) (w : WarnWindow)
    → (judge limit w).0.suppressed + (judge limit w).2
      ≡ w.suppressed + (if (judge limit w).1 then 0 else 1)
unfolding judge
judge-owes limit w = ground arith

-- The keys after a call with a new key, before its window is added.
unfoldable pub swept : ℕ → WarnLimiter → List (Text × WarnWindow)
swept t l = if leb sweep_at (length l.keys) then sweep l.window t l.keys else l.keys

owing-swept : (key : Text) (t : ℕ) (l : WarnLimiter) → owing key (swept t l) ≤ owing key l.keys
unfolding swept sweep owing
owing-swept key t l = ground (arith, owing-keep_live key l.window t l.keys)

find-swept : (k : Text) (t : ℕ) (l : WarnLimiter) → find k l.keys ≡ none → find k (swept t l) ≡ none
unfolding swept sweep find
find-swept k t l h = ground (arith, h, find-keep_live k l.window t l.keys)

module _ (key k : Text) (limit : ℕ) (w : WarnWindow) (m : List (Text × WarnWindow)) where
  -- The counts of a judged window are put back.
  abbrev Counted : Type 0
  Counted =
      owing key (put k (judge limit w).0 m) + (if text_eq k key then (judge limit w).2 else 0)
      ≡ owing key m + (if text_eq k key && not (judge limit w).1 then 1 else 0)

  Counted-new : find k m ≡ none → w.suppressed ≡ 0 → Counted
  Counted-new h z = ground (arith, owing-put_new key k (judge limit w).0 m h, judge-owes limit w)

  Counted-found : (v : WarnWindow) → find k m ≡ some v → w.suppressed ≡ v.suppressed → Counted
  Counted-found v h e =
      ground (arith, owing-put_found key k (judge limit w).0 v m h, judge-owes limit w)

-- What one call does to what is owed.
abbrev owed_before : Text → Text → ℕ → WarnLimiter → ℕ
owed_before key k t l = owing key l.keys + (if text_eq k key && not (allow k t l).1 then 1 else 0)

abbrev owed_after : Text → Text → ℕ → WarnLimiter → ℕ
owed_after key k t l =
    owing key (allow k t l).0.keys + (if text_eq k key then (allow k t l).2 else 0)

allow-owes_new :
    (key k : Text) (t : ℕ) (l : WarnLimiter)
    → find k l.keys ≡ none
    → owed_after key k t l + owing key l.keys ≡ owed_before key k t l + owing key (swept t l)
unfolding allow window_for swept
allow-owes_new key k t l h =
    let fresh : WarnWindow = record { start = t; sent = 0; suppressed = 0 } in
    let c : Counted key k l.limit fresh (swept t l) =
      Counted-new key k l.limit fresh (swept t l) (find-swept k t l h) refl in
    rw h (omega (arith, c))

-- The window of a key that has one.
unfoldable pub current : ℕ → WarnLimiter → WarnWindow → WarnWindow
unfolding is_over
current t l w = if is_over l.window t w then record w { start = t; sent = 0 } else w

allow-owes_found :
    (key k : Text) (t : ℕ) (l : WarnLimiter) (w : WarnWindow)
    → find k l.keys ≡ some w
    → owed_after key k t l ≡ owed_before key k t l
unfolding allow window_for current
allow-owes_found key k t l w h =
    let same : (current t l w).suppressed ≡ w.suppressed = ground arith in
    let c : Counted key k l.limit (current t l w) l.keys =
      Counted-found key k l.limit (current t l w) l.keys w h same in
    rw h c

-- With room for the key nothing is swept.
pub swept-room : (t : ℕ) (l : WarnLimiter) → length l.keys < sweep_at → swept t l ≡ l.keys
unfolding swept
swept-room t l h = ground arith

allow-owes : (key k : Text) (t : ℕ) (l : WarnLimiter) → owed_after key k t l ≤ owed_before key k t l
allow-owes key k t l = elim (Option-cases (find k l.keys)) [
  | inl e ↦ omega (arith, allow-owes_new key k t l e, owing-swept key t l)
  | inr (w, e) ↦ omega (arith, allow-owes_found key k t l w e)
]

allow-owes_room :
    (key k : Text) (t : ℕ) (l : WarnLimiter)
    → length l.keys < sweep_at
    → owed_after key k t l ≡ owed_before key k t l
allow-owes_room key k t l h = elim (Option-cases (find k l.keys)) [
  | inl e ↦
      let same : owing key (swept t l) ≡ owing key l.keys = ap (owing key) (swept-room t l h) in
      omega (arith, allow-owes_new key k t l e)
  | inr (w, e) ↦ allow-owes_found key k t l w e
]

length-swept : (t : ℕ) (l : WarnLimiter) → length (swept t l) < sweep_at
unfolding swept
length-swept t l = ground (arith, length-sweep l.window t l.keys)

-- The keys after a call with a new key, and after one with a key that has a window.
length-allow_new :
    (k : Text) (t : ℕ) (l : WarnLimiter)
    → find k l.keys ≡ none
    → length (allow k t l).0.keys ≤ length (swept t l) + 1
unfolding allow window_for swept
length-allow_new k t l e =
    let fresh : WarnWindow = record { start = t; sent = 0; suppressed = 0 } in
    rw e (length-put k (judge l.limit fresh).0 (swept t l))

length-allow_found :
    (k : Text) (t : ℕ) (l : WarnLimiter) (w : WarnWindow)
    → find k l.keys ≡ some w
    → length (allow k t l).0.keys ≡ length l.keys
unfolding allow window_for current
length-allow_found k t l w e =
    rw e (length-put_found k (judge l.limit (current t l w)).0 w l.keys e)

length-allow :
    (k : Text) (t : ℕ) (l : WarnLimiter)
    → length l.keys ≤ sweep_at
    → length (allow k t l).0.keys ≤ sweep_at
length-allow k t l h = elim (Option-cases (find k l.keys)) [
  | inl e ↦ omega (arith, length-allow_new k t l e, length-swept t l)
  | inr (w, e) ↦ omega (arith, length-allow_found k t l w e)
]

pub length-allow_room :
    (k : Text) (t : ℕ) (l : WarnLimiter)
    → length l.keys < sweep_at
    → length (allow k t l).0.keys ≤ length l.keys + 1
length-allow_room k t l h = elim (Option-cases (find k l.keys)) [
  | inl e ↦
      let same : length (swept t l) ≡ length l.keys = ap length (swept-room t l h) in
      omega (arith, length-allow_new k t l e)
  | inr (w, e) ↦ omega (arith, length-allow_found k t l w e)
]

-- The limiter's memory is bounded: from at most 4096 keys, no calls at any times with any keys lead
-- to more than 4096.
pub run-bounded :
    (calls : List Call) (l : WarnLimiter)
    → length l.keys ≤ sweep_at
    → length (run calls l).keys ≤ sweep_at
unfolding run
run-bounded [] l h = h
run-bounded ((k, t) ∷ calls) l h = run-bounded calls (allow k t l).0 (length-allow k t l h)

-- For every key, what the warnings that go through report as suppressed, with what is still owed, is
-- at most what was held back, with what was owed before.
pub run-owes :
    (key : Text) (calls : List Call) (l : WarnLimiter)
    → reported key calls l + owing key (run calls l).keys ≤ held_back key calls l + owing key l.keys
unfolding run reported held_back
run-owes key [] l = omega arith
run-owes key ((k, t) ∷ calls) l =
    let later : reported key calls (allow k t l).0 + owing key (run calls (allow k t l).0).keys
        ≤ held_back key calls (allow k t l).0 + owing key (allow k t l).0.keys =
      run-owes key calls (allow k t l).0 in
    omega (arith, allow-owes key k t l)

-- While the limiter has room for its keys, the counts of suppressed warnings are exact: for calls
-- with any keys at any times, where the number of its keys and the number of the calls are at most
-- 4096 together, what is reported for a key, with what is still owed, is what was held back, with
-- what was owed before.
pub run-conserves :
    (key : Text) (calls : List Call) (l : WarnLimiter)
    → length l.keys + length calls ≤ sweep_at
    → reported key calls l + owing key (run calls l).keys ≡ held_back key calls l + owing key l.keys
unfolding run reported held_back
run-conserves key [] l room = omega arith
run-conserves key ((k, t) ∷ calls) l room =
    let has_room : length l.keys < sweep_at = omega arith in
    let room_then : length (allow k t l).0.keys + length calls ≤ sweep_at =
      omega (arith, length-allow_room k t l has_room) in
    let later : reported key calls (allow k t l).0 + owing key (run calls (allow k t l).0).keys
        ≡ held_back key calls (allow k t l).0 + owing key (allow k t l).0.keys =
      run-conserves key calls (allow k t l).0 room_then in
    omega (arith, allow-owes_room key k t l has_room)
