-- ===== src/Socket/Losses.antt =====
-- How many messages a connection can cost.
use lattice_runner.Base.{ℕ, ◌+◌, ◌≤◌, Bool, ◌≡◌, List, [], ◌∷◌, Text, Bool-cases, inl, inr, arith}
use lattice_runner.Socket.Sends.{Outcome, enters, falls, fails, send-Outcome, reliable-Outcome}
use lattice_runner.Socket.{
  Json, Pump, idle, holding, stopped, WsClient, new_client, count_drop, take_drops, Sent, dial,
  start_pumps, close, end_read_pump, end_write_pump, write_taken, write_ping, end_run, Event, sent,
  outcome, lost, connected, Step, sends, sends_reliably, takes_drops, dials, starts, takes, writes,
  pings, stops_writing, stops_reading, ends, closes, Run, start, then_step,
}

lost_by : Event → ℕ
lost_by (lost b) = 1
lost_by _ = 0

-- The messages that were taken from the queue and not written, and the connections.
unfoldable pub lost_in : List Event → ℕ
unfolding lost_by
lost_in [] = 0
lost_in (e ∷ es) = lost_by e + lost_in es

connected_by : Event → ℕ
connected_by connected = 1
connected_by _ = 0

unfoldable pub connected_in : List Event → ℕ
unfolding connected_by
connected_in [] = 0
connected_in (e ∷ es) = connected_by e + connected_in es

-- A pump that has not ended may still lose a message.
may_lose : Pump → ℕ
may_lose stopped = 0
may_lose _ = 1

Pays : WsClient → Event → WsClient → Type 0
unfolding lost_by connected_by may_lose
Pays c e u = lost_by e + may_lose u.writer ≤ connected_by e + may_lose c.writer

Outcome-Pays : {c : WsClient} {r : Sent} {u : WsClient} → Outcome c r u → Pays c (sent r) u
unfolding Pays lost_by connected_by
Outcome-Pays (enters b room) = omega arith
Outcome-Pays (falls t) = unfold count_drop in omega arith
Outcome-Pays fails = omega arith

may_lose-le : (w : Pump) → may_lose w ≤ 1
unfolding may_lose
may_lose-le idle = omega arith
may_lose-le (holding b) = omega arith
may_lose-le stopped = omega arith

write-Pays :
    (b : Text) (ok : Bool) (c : WsClient)
    → c.writer ≡ holding b
    → Pays c (outcome b (write_taken ok c).1) (write_taken ok c).0
unfolding Pays write_taken lost_by connected_by may_lose
write-Pays b ok c w = elim (Bool-cases c.closed) [
  | inl e ↦ rw (w, e) (omega arith)
  | inr e ↦ elim (Bool-cases ok) [
    | inl f ↦ rw (w, e, f) (omega arith)
    | inr f ↦ rw (w, e, f) (omega arith)
  ]
]

module _ {V : Type 0} (json : Json V) where
  Step-Pays : {c : WsClient} {e : Event} {u : WsClient} → Step json c e u → Pays c e u
  unfolding Pays lost_by connected_by
  Step-Pays (sends v c) = Outcome-Pays (send-Outcome json v c)
  Step-Pays (sends_reliably v expired c h) = Outcome-Pays (reliable-Outcome json v expired c h)
  Step-Pays (takes_drops c) = unfold take_drops in omega arith
  Step-Pays (dials ok c h) = unfold dial in ground arith
  Step-Pays (starts c h) = unfold start_pumps may_lose in omega arith
  Step-Pays (takes b rest c w q) = unfold may_lose in rw w (omega arith)
  Step-Pays (writes b ok c w) = write-Pays b ok c w
  Step-Pays (pings ok c w) = unfold write_ping end_write_pump may_lose in ground arith
  Step-Pays (stops_writing c w) = unfold end_write_pump may_lose in omega arith
  Step-Pays (stops_reading c h) = unfold end_read_pump in omega arith
  Step-Pays (ends c h r w) = unfold end_run close in ground arith
  Step-Pays (closes c) = unfold close in ground arith

  paid :
      {es : List Event} {c : WsClient}
      → Run json es c
      → lost_in es + may_lose c.writer ≤ connected_in es
  unfolding lost_in connected_in Pays
  paid start = unfold new_client may_lose in omega arith
  paid (then_step {es} {c} {e} {u} r s) =
      let before : lost_in es + may_lose c.writer ≤ connected_in es = paid r in
      let step : Pays c e u = Step-Pays s in omega arith

  -- In every run of a new client, the messages that were queued and then lost, because their write
  -- failed or came after a close, are at most as many as the connections.
  pub Run-losses : {es : List Event} {c : WsClient} → Run json es c → lost_in es ≤ connected_in es
  Run-losses {es} {c} r = omega (arith, paid r)
