-- ===== src/Socket.antt =====
-- The WebSocket client of client/websocket.go: its send queue, the counts of dropped messages, and
-- the connection with its two pumps, as steps that may come in any order.
mod Sends
mod Order
mod Drops
mod Losses
mod Tests
use lattice_runner.Base.{
  ℕ, Bool, true, false, not, ◌&&◌, ◌≡◌, ◌+◌, suc, Option, none, some, List, [], ◌∷◌, ◌++◌, Text,
  codes, text_eq, if◌then◌else◌, ltb, length, is_nil,
}

-- encoding/json: the bytes of a value, and the "type" field of encoded bytes.
pub record Json (V : Type 0) : Type 0 where
  pub marshal : V → Option Text
  pub type_field : Text → Option Text

-- Where the write pump is: at its select, with a message that it took, or ended.
pub data Pump : Type 0 where
  idle : Pump
  holding : Text → Pump
  stopped : Pump

-- Where Connect is: before dial has succeeded, before run, and in run.
pub data Phase : Type 0 where
  offline : Phase
  dialled : Phase
  running : Phase

-- `conn` says whether there is a connection, and `drops` is none for the nil map.
pub record WsClient : Type 0 where
  pub queue : List Text
  pub conn : Bool
  pub closed : Bool
  pub drops : Option (List (Text × ℕ))
  pub phase : Phase
  pub reading : Bool
  pub writer : Pump
  pub cancelled : Bool

abbrev pub queue_cap : ℕ
queue_cap = 256

pub new_client : WsClient
new_client = record {
  queue = [];
  conn = false;
  closed = false;
  drops = none;
  phase = offline;
  reading = false;
  writer = stopped;
  cancelled = false;
}

-- c.drops[msgType]++
pub count_in : Text → List (Text × ℕ) → List (Text × ℕ)
count_in t [] = (t, 1) ∷ []
count_in t ((k, n) ∷ m) = if text_eq k t then (k, suc n) ∷ m else (k, n) ∷ count_in t m

-- The drops as a map: a nil map reads as an empty one.
abbrev pub entries : Option (List (Text × ℕ)) → List (Text × ℕ)
entries none = []
entries (some m) = m

pub count_drop : Text → WsClient → WsClient
count_drop t c = record c { drops = some (count_in t (entries c.drops)) }

-- The client afterwards, and the map that is returned.
pub take_drops : WsClient → WsClient × List (Text × ℕ)
take_drops c = (record c { drops = none }, entries c.drops)

pub queue_stats : WsClient → ℕ × ℕ
queue_stats c = (length c.queue, queue_cap)

-- What a call that sends comes to. The type of a refused message goes into the counts and the log.
pub data Sent : Type 0 where
  accepted : Text → Sent
  refused : Text → Sent
  not_encoded : Sent

module _ {V : Type 0} (json : Json V) where
  pub message_type : Text → Text
  message_type b = elim (json.type_field b) [
    | none ↦ codes "untyped"
    | some t ↦ if is_nil t then codes "untyped" else t
  ]

  -- The two cases of each select: the message is queued, or it is dropped.
  enqueue : Text → WsClient → WsClient × Sent
  enqueue b c = (record c { queue = c.queue ++ b ∷ [] }, accepted b)

  drop_message : Text → WsClient → WsClient × Sent
  drop_message b c = (count_drop (message_type b) c, refused (message_type b))

  -- What json.Marshal gave, sent at once.
  send_encoded : Option Text → WsClient → WsClient × Sent
  unfolding enqueue drop_message
  send_encoded none c = (c, not_encoded)
  send_encoded (some b) c = if ltb (length c.queue) queue_cap then enqueue b c else drop_message b c

  pub send_json : V → WsClient → WsClient × Sent
  unfolding send_encoded
  send_json v c = send_encoded (json.marshal v) c

  -- What json.Marshal gave, sent with a timer.
  send_waiting : Option Text → Bool → WsClient → Option (WsClient × Sent)
  unfolding enqueue drop_message
  send_waiting none expired c = some (c, not_encoded)
  send_waiting (some b) true c = some (drop_message b c)
  send_waiting (some b) false c =
      if ltb (length c.queue) queue_cap then some (enqueue b c) else none

  -- The call as it stands at the time of `c`: `expired` says that its timer has fired and that its
  -- case is the one that select takes. With no room and no timer the call goes on waiting.
  pub send_json_reliable : V → Bool → WsClient → Option (WsClient × Sent)
  unfolding send_waiting
  send_json_reliable v expired c = send_waiting (json.marshal v) expired c

-- dial, with the answer of the dialer.
pub dial : Bool → WsClient → WsClient
dial ok c = if ok then record c { conn = true; closed = false; phase = dialled } else c

-- The pumps of run, with their new context.
pub start_pumps : WsClient → WsClient
start_pumps c = record c { phase = running; reading = true; writer = idle; cancelled = false }

pub close : WsClient → WsClient
close c = if not c.closed && c.conn then record c { closed = true } else c

-- readPump returns, after an error of the read or by its context, and cancels.
pub end_read_pump : WsClient → WsClient
end_read_pump c = record c { reading = false; cancelled = true }

pub end_write_pump : WsClient → WsClient
end_write_pump c = record c { writer = stopped }

-- writePump has taken `b`, and goes on under the lock: `ok` is the answer of WriteMessage, which is
-- not called after a close. The Boolean says whether `b` was written.
pub write_taken : Bool → WsClient → WsClient × Bool
write_taken ok c =
    if c.closed
    then (record c { writer = stopped }, false)
    else if ok
    then (record c { writer = idle }, true)
    else (record c { writer = stopped }, false)

-- The ping of writePump.
pub write_ping : Bool → WsClient → WsClient
write_ping ok c = if c.closed then end_write_pump c else if ok then c else end_write_pump c

-- run returns after both pumps.
pub end_run : WsClient → WsClient
unfolding close
end_run c = let d : WsClient = close c in record d { phase = offline }

-- What a step shows: messages that are queued, refused, written and lost, the drops that TakeDrops
-- reports, and the connections.
pub data Event : Type 0 where
  sent : Sent → Event
  reported : List (Text × ℕ) → Event
  wrote : Text → Event
  lost : Text → Event
  connected : Event
  silent : Event

abbrev pub outcome : Text → Bool → Event
outcome b true = wrote b
outcome b false = lost b

module _ {V : Type 0} (json : Json V) where
  -- The steps of the goroutines that send, of Connect, of the pumps and of Close.
  pub data Step : WsClient → Event → WsClient → Type 0 where
    sends : (v : V) (c : WsClient) → Step c (sent (send_json json v c).1) (send_json json v c).0
    sends_reliably :
        (v : V) (expired : Bool) (c : WsClient) {u : WsClient} {r : Sent}
        → send_json_reliable json v expired c ≡ some (u, r)
        → Step c (sent r) u
    takes_drops : (c : WsClient) → Step c (reported (take_drops c).1) (take_drops c).0
    dials : (ok : Bool) (c : WsClient) → c.phase ≡ offline → Step c silent (dial ok c)
    starts : (c : WsClient) → c.phase ≡ dialled → Step c connected (start_pumps c)
    takes :
        (b : Text) (rest : List Text) (c : WsClient)
        → c.writer ≡ idle
        → c.queue ≡ b ∷ rest
        → Step c silent (record c { queue = rest; writer = holding b })
    writes :
        (b : Text) (ok : Bool) (c : WsClient)
        → c.writer ≡ holding b
        → Step c (outcome b (write_taken ok c).1) (write_taken ok c).0
    pings : (ok : Bool) (c : WsClient) → c.writer ≡ idle → Step c silent (write_ping ok c)
    stops_writing : (c : WsClient) → c.writer ≡ idle → Step c silent (end_write_pump c)
    stops_reading : (c : WsClient) → c.reading ≡ true → Step c silent (end_read_pump c)
    ends :
        (c : WsClient)
        → c.phase ≡ running
        → c.reading ≡ false
        → c.writer ≡ stopped
        → Step c silent (end_run c)
    closes : (c : WsClient) → Step c silent (close c)

  -- The runs of a new client, with what they have shown, the newest first.
  pub data Run : List Event → WsClient → Type 0 where
    start : Run [] new_client
    then_step :
        {es : List Event} {c : WsClient} {e : Event} {u : WsClient}
        → Run es c
        → Step c e u
        → Run (e ∷ es) u
