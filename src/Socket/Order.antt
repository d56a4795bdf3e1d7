-- ===== src/Socket/Order.antt =====
-- The send queue is a bounded queue: first in, first out.
use mathlib.Core.Path.{◌≡⟨◌⟩◌, ◌∎}
use mathlib.Core.List.{append_assoc, append-nil}
use lattice_runner.Base.{
  Bool, true, false, not, ◌&&◌, ◌≡◌, refl, sym, ap, List, [], ◌∷◌, ◌++◌, Text, if◌then◌else◌,
  Bool-cases, inl, inr, arith,
}
use lattice_runner.Socket.Sends.{
  HasPump, Outcome, enters, falls, fails, send-Outcome, reliable-Outcome, Run-HasPump,
}
use lattice_runner.Socket.{
  Json, Pump, idle, holding, stopped, WsClient, new_client, count_drop, take_drops, Sent, accepted,
  dial, start_pumps, close, end_read_pump, end_write_pump, write_taken, write_ping, end_run, Event,
  sent, wrote, lost, silent, outcome, Step, sends, sends_reliably, takes_drops, dials, starts,
  takes, writes, pings, stops_writing, stops_reading, ends, closes, Run, start, then_step,
}

-- The message that the write pump has taken, and those that wait.
unfoldable pub held : Pump → List Text
held idle = []
held (holding b) = b ∷ []
held stopped = []

unfoldable pub pending : WsClient → List Text
unfolding held
pending c = held c.writer ++ c.queue

-- The messages that a run has queued, and those that have left the client, oldest first.
abbrev pub queued_by : Event → List Text
queued_by (sent (accepted b)) = b ∷ []
queued_by _ = []

unfoldable pub queued_in : List Event → List Text
queued_in [] = []
queued_in (e ∷ es) = queued_in es ++ queued_by e

abbrev pub gone_by : Event → List Text
gone_by (wrote b) = b ∷ []
gone_by (lost b) = b ∷ []
gone_by _ = []

unfoldable pub gone_in : List Event → List Text
gone_in [] = []
gone_in (e ∷ es) = gone_in es ++ gone_by e

-- One step keeps the order: what waits and what is queued is what goes and what waits then.
abbrev Keeps : WsClient → Event → WsClient → Type 0
Keeps c e u = pending c ++ queued_by e ≡ gone_by e ++ pending u

Outcome-Keeps : {c : WsClient} {r : Sent} {u : WsClient} → Outcome c r u → Keeps c (sent r) u
unfolding pending
Outcome-Keeps {c} (enters b room) = append_assoc (held c.writer) c.queue (b ∷ [])
Outcome-Keeps {c} (falls t) = unfold count_drop in append-nil (pending c)
Outcome-Keeps {c} fails = append-nil (pending c)

write-Keeps :
    (b : Text) (ok : Bool) (c : WsClient)
    → c.writer ≡ holding b
    → Keeps c (outcome b (write_taken ok c).1) (write_taken ok c).0
unfolding write_taken pending held
write-Keeps b ok c h = elim (Bool-cases c.closed) [
  | inl e ↦ rw (h, e) (append-nil (b ∷ c.queue))
  | inr e ↦ elim (Bool-cases ok) [
    | inl good ↦ rw (h, e, good) (append-nil (b ∷ c.queue))
    | inr bad ↦ rw (h, e, bad) (append-nil (b ∷ c.queue))
  ]
]

Keeps-if :
    (b : Bool) (c : WsClient) (x y : WsClient)
    → Keeps c silent x
    → Keeps c silent y
    → Keeps c silent (if b then x else y)
Keeps-if true c x y h k = h
Keeps-if false c x y h k = k

dial-Keeps : (ok : Bool) (c : WsClient) → Keeps c silent (dial ok c)
unfolding dial pending
dial-Keeps ok c = Keeps-if ok c _ _ (append-nil (pending c)) (append-nil (pending c))

close-Keeps : (c : WsClient) → Keeps c silent (close c)
unfolding close pending
close-Keeps c =
    Keeps-if (not c.closed && c.conn) c _ _ (append-nil (pending c)) (append-nil (pending c))

stop-Keeps : (c : WsClient) → c.writer ≡ idle → Keeps c silent (end_write_pump c)
unfolding end_write_pump pending held
stop-Keeps c w = rw w (append-nil c.queue)

ping-Keeps : (ok : Bool) (c : WsClient) → c.writer ≡ idle → Keeps c silent (write_ping ok c)
unfolding write_ping
ping-Keeps ok c w =
    let stopped_then : Keeps c silent (end_write_pump c) = stop-Keeps c w in
    Keeps-if c.closed c _ _ stopped_then (Keeps-if ok c _ _ (append-nil (pending c)) stopped_then)

module _ {V : Type 0} (json : Json V) where
  Step-Keeps : {c : WsClient} {e : Event} {u : WsClient} → HasPump c → Step json c e u → Keeps c e u
  unfolding pending
  Step-Keeps p (sends v c) = Outcome-Keeps (send-Outcome json v c)
  Step-Keeps p (sends_reliably v expired c h) = Outcome-Keeps (reliable-Outcome json v expired c h)
  Step-Keeps p (takes_drops c) = unfold take_drops in append-nil (pending c)
  Step-Keeps p (dials ok c h) = dial-Keeps ok c
  Step-Keeps p (starts c h) = unfold start_pumps held in ground (arith, p, h, append-nil c.queue)
  Step-Keeps p (takes b rest c w q) = unfold held in rw (w, q) (append-nil (b ∷ rest))
  Step-Keeps p (writes b ok c w) = write-Keeps b ok c w
  Step-Keeps p (pings ok c w) = ping-Keeps ok c w
  Step-Keeps p (stops_writing c w) = stop-Keeps c w
  Step-Keeps p (stops_reading c h) = unfold end_read_pump in append-nil (pending c)
  Step-Keeps p (ends c h r w) = unfold end_run in close-Keeps c
  Step-Keeps p (closes c) = close-Keeps c

  -- The send queue is first in, first out, in every run of a new client, whatever is sent, dropped,
  -- written and closed in whatever order: the messages that were queued are those that left the
  -- client, each written once or lost once, then the one that the write pump holds, and then those
  -- in the queue.
  pub Run-order :
      {es : List Event} {c : WsClient} → Run json es c → queued_in es ≡ gone_in es ++ pending c
  unfolding queued_in gone_in
  Run-order start = unfold new_client pending held in refl
  Run-order (then_step {es} {c} {e} {u} r s) =
      queued_in es ++ queued_by e
      ≡⟨ ap (λ q. q ++ queued_by e) (Run-order r) ⟩ (gone_in es ++ pending c) ++ queued_by e
      ≡⟨ append_assoc (gone_in es) (pending c) (queued_by e) ⟩
        gone_in es ++ (pending c ++ queued_by e)
      ≡⟨ ap (λ q. gone_in es ++ q) (Step-Keeps (Run-HasPump json r) s) ⟩
        gone_in es ++ (gone_by e ++ pending u)
      ≡⟨ sym (append_assoc (gone_in es) (gone_by e) (pending u)) ⟩
        (gone_in es ++ gone_by e) ++ pending u ∎
