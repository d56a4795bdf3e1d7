-- ===== src/Socket/Drops.antt =====
-- No drop is forgotten, and none is reported twice.
use lattice_runner.Base.{
  ℕ, ◌+◌, Bool, ◌≡◌, refl, List, [], ◌∷◌, Text, text_eq, text_eq_iff, if◌then◌else◌, Bool-cases,
  inl, inr, arith,
}
use lattice_runner.Socket.Sends.{Outcome, enters, falls, fails, send-Outcome, reliable-Outcome}
use lattice_runner.Socket.{
  Json, WsClient, new_client, entries, count_in, count_drop, take_drops, Sent, refused, dial,
  start_pumps, close, end_read_pump, end_write_pump, write_taken, write_ping, end_run, Event, sent,
  reported, outcome, Step, sends, sends_reliably, takes_drops, dials, starts, takes, writes, pings,
  stops_writing, stops_reading, ends, closes, Run, start, then_step,
}

-- The number that a map has for a type.
unfoldable pub count : Text → List (Text × ℕ) → ℕ
count t [] = 0
count t ((k, n) ∷ m) = if text_eq k t then n else count t m

count-count_in :
    (t s : Text) (m : List (Text × ℕ))
    → count t (count_in s m) ≡ (if text_eq s t then 1 else 0) + count t m
unfolding count count_in
count-count_in t s [] = ground arith
count-count_in t s ((k, n) ∷ m) =
    ground (arith, text_eq_iff k s, text_eq_iff s t, text_eq_iff k t, count-count_in t s m)

-- The messages of a type that a run has refused, and those that TakeDrops has reported.
refused_by : Text → Event → ℕ
refused_by t (sent (refused s)) = if text_eq s t then 1 else 0
refused_by t _ = 0

unfoldable pub refused_in : Text → List Event → ℕ
unfolding refused_by
refused_in t [] = 0
refused_in t (e ∷ es) = refused_by t e + refused_in t es

reported_by : Text → Event → ℕ
unfolding count
reported_by t (reported m) = count t m
reported_by t _ = 0

unfoldable pub reported_in : Text → List Event → ℕ
unfolding reported_by
reported_in t [] = 0
reported_in t (e ∷ es) = reported_by t e + reported_in t es

-- What a step refuses and what was counted is what it reports and what is counted then.
Balances : Text → WsClient → Event → WsClient → Type 0
unfolding refused_by reported_by
Balances t c e u =
    refused_by t e + count t (entries c.drops) ≡ reported_by t e + count t (entries u.drops)

Outcome-Balances :
    (t : Text) {c : WsClient} {r : Sent} {u : WsClient} → Outcome c r u → Balances t c (sent r) u
unfolding Balances refused_by reported_by
Outcome-Balances t (enters b room) = refl
Outcome-Balances t {c} (falls s) =
    unfold count_drop in omega (arith, count-count_in t s (entries c.drops))
Outcome-Balances t fails = refl

write-Balances :
    (t b : Text) (ok : Bool) (c : WsClient)
    → Balances t c (outcome b (write_taken ok c).1) (write_taken ok c).0
unfolding Balances write_taken refused_by reported_by
write-Balances t b ok c = elim (Bool-cases c.closed) [
  | inl e ↦ rw e refl
  | inr e ↦ elim (Bool-cases ok) [ inl f ↦ rw (e, f) refl | inr f ↦ rw (e, f) refl ]
]

module _ {V : Type 0} (json : Json V) (t : Text) where
  Step-Balances : {c : WsClient} {e : Event} {u : WsClient} → Step json c e u → Balances t c e u
  unfolding Balances refused_by reported_by
  Step-Balances (sends v c) = Outcome-Balances t (send-Outcome json v c)
  Step-Balances (sends_reliably v expired c h) =
      Outcome-Balances t (reliable-Outcome json v expired c h)
  Step-Balances (takes_drops c) = unfold take_drops count in omega arith
  Step-Balances (dials ok c h) = unfold dial in ground arith
  Step-Balances (starts c h) = unfold start_pumps in refl
  Step-Balances (takes b rest c w q) = refl
  Step-Balances (writes b ok c w) = write-Balances t b ok c
  Step-Balances (pings ok c w) = unfold write_ping end_write_pump in ground arith
  Step-Balances (stops_writing c w) = unfold end_write_pump in refl
  Step-Balances (stops_reading c h) = unfold end_read_pump in refl
  Step-Balances (ends c h r w) = unfold end_run close in ground arith
  Step-Balances (closes c) = unfold close in ground arith

  -- In every run of a new client and for every message type, the messages refused for want of room
  -- are those that the calls of TakeDrops have reported and those that the next call will report.
  pub Run-drops :
      {es : List Event} {c : WsClient}
      → Run json es c
      → refused_in t es ≡ reported_in t es + count t (take_drops c).1
  unfolding refused_in reported_in take_drops Balances
  Run-drops start = unfold new_client count in refl
  Run-drops (then_step r s) = omega (arith, Run-drops r, Step-Balances s)
