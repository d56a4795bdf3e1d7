-- ===== src/Socket/Sends.antt =====
-- What a call that sends can come to, and where the write pump runs.
use mathlib.Core.Path.{subst}
use lattice_runner.Base.{
  Bool, true, false, ◌&&◌, not, ◌≡◌, ◌≢◌, refl, Option, none, some, List, [], ◌∷◌, ◌++◌, Text,
  if◌then◌else◌, ltb, length, Bool-cases, inl, inr,
}
use lattice_runner.Socket.{
  Json, Pump, Phase, offline, dialled, running, idle, holding, stopped, WsClient, queue_cap,
  new_client, count_drop, take_drops, Sent, accepted, refused, not_encoded, message_type, enqueue,
  drop_message, send_encoded, send_json, send_waiting, send_json_reliable, dial, start_pumps, close,
  end_read_pump, end_write_pump, write_taken, write_ping, end_run, Event, Step, sends,
  sends_reliably, takes_drops, dials, starts, takes, writes, pings, stops_writing, stops_reading,
  ends, closes, Run, start, then_step,
}

-- A message enters the queue, which has room, or its drop is counted, or there is no message.
pub data Outcome (c : WsClient) : Sent → WsClient → Type 0 where
  enters :
      (b : Text)
      → ltb (length c.queue) queue_cap ≡ true
      → Outcome c (accepted b) (record c { queue = c.queue ++ b ∷ [] })
  falls : (t : Text) → Outcome c (refused t) (count_drop t c)
  fails : Outcome c not_encoded c

Outcome-same :
    (c : WsClient) {x : WsClient × Sent} {u : WsClient} {r : Sent}
    → some x ≡ some (u, r)
    → Outcome c x.1 x.0
    → Outcome c r u
Outcome-same c {x} {u} {r} h o =
    let e : x ≡ (u, r) = cc in subst (λ (y : WsClient × Sent). Outcome c y.1 y.0) e o

module _ {V : Type 0} (json : Json V) where
  encoded-Outcome :
      (m : Option Text) (c : WsClient)
      → Outcome c (send_encoded json m c).1 (send_encoded json m c).0
  unfolding send_encoded enqueue drop_message
  encoded-Outcome none c = fails
  encoded-Outcome (some b) c = elim (Bool-cases (ltb (length c.queue) queue_cap)) [
    | inl room ↦ rw room (enters b room)
    | inr full ↦ rw full (falls (message_type json b))
  ]

  waiting-Outcome :
      (m : Option Text) (expired : Bool) (c : WsClient) {u : WsClient} {r : Sent}
      → send_waiting json m expired c ≡ some (u, r)
      → Outcome c r u
  unfolding send_waiting enqueue drop_message
  waiting-Outcome none expired c h = Outcome-same c h fails
  waiting-Outcome (some b) true c h = Outcome-same c h (falls (message_type json b))
  waiting-Outcome (some b) false c h = elim (Bool-cases (ltb (length c.queue) queue_cap)) [
    | inl room ↦ Outcome-same c (rw room at h) (enters b room)
    | inr full ↦ absurd (cc (rw full at h))
  ]

  pub send-Outcome :
      (v : V) (c : WsClient) → Outcome c (send_json json v c).1 (send_json json v c).0
  unfolding send_json
  send-Outcome v c = encoded-Outcome (json.marshal v) c

  pub reliable-Outcome :
      (v : V) (expired : Bool) (c : WsClient) {u : WsClient} {r : Sent}
      → send_json_reliable json v expired c ≡ some (u, r)
      → Outcome c r u
  unfolding send_json_reliable
  reliable-Outcome v expired c h = waiting-Outcome (json.marshal v) expired c h

-- The write pump runs only inside run.
abbrev pub Fits : Phase → Pump → Type 0
Fits running w = Unit {0}
Fits _ w = w ≡ stopped

abbrev pub HasPump : WsClient → Type 0
HasPump c = Fits c.phase c.writer

Fits-stopped : (p : Phase) → Fits p stopped
Fits-stopped offline = refl
Fits-stopped dialled = refl
Fits-stopped running = tt

-- A pump that has not ended is inside run.
Fits-any : (p : Phase) (v w : Pump) → v ≢ stopped → Fits p v → Fits p w
Fits-any offline v w h e = absurd (h e)
Fits-any dialled v w h e = absurd (h e)
Fits-any running v w h e = tt

idle-ne-stopped : {w : Pump} → w ≡ idle → w ≢ stopped
idle-ne-stopped e f = cc

HasPump-if : (b : Bool) (x y : WsClient) → HasPump x → HasPump y → HasPump (if b then x else y)
HasPump-if true x y h k = h
HasPump-if false x y h k = k

Outcome-HasPump : {c : WsClient} {r : Sent} {u : WsClient} → Outcome c r u → HasPump c → HasPump u
Outcome-HasPump (enters b room) p = p
Outcome-HasPump (falls t) p = unfold count_drop in p
Outcome-HasPump fails p = p

dial-HasPump : (ok : Bool) (c : WsClient) → c.phase ≡ offline → HasPump c → HasPump (dial ok c)
unfolding dial
dial-HasPump true c h p = subst (λ x. Fits x c.writer) h p
dial-HasPump false c h p = p

close-HasPump : (c : WsClient) → HasPump c → HasPump (close c)
unfolding close
close-HasPump c p = HasPump-if (not c.closed && c.conn) (record c { closed = true }) c p p

write-HasPump :
    (ok : Bool) (c : WsClient) → c.writer ≢ stopped → HasPump c → HasPump (write_taken ok c).0
unfolding write_taken
write-HasPump ok c h p =
    let back : Fits c.phase idle = Fits-any c.phase c.writer idle h p in
    let over : Fits c.phase stopped = Fits-stopped c.phase in
    elim (Bool-cases c.closed) [
      | inl e ↦ rw e over
      | inr e ↦ elim (Bool-cases ok) [ inl f ↦ rw (e, f) back | inr f ↦ rw (e, f) over ]
    ]

ping-HasPump : (ok : Bool) (c : WsClient) → HasPump c → HasPump (write_ping ok c)
unfolding write_ping end_write_pump
ping-HasPump ok c p =
    let over : HasPump (end_write_pump c) = Fits-stopped c.phase in
    HasPump-if c.closed _ _ over (HasPump-if ok _ _ p over)

end_run-HasPump : (c : WsClient) → c.writer ≡ stopped → HasPump (end_run c)
unfolding end_run close
end_run-HasPump c w = elim (Bool-cases (not c.closed && c.conn)) [ inl e ↦ rw e w | inr e ↦ rw e w ]

module _ {V : Type 0} (json : Json V) where
  Step-HasPump : {c : WsClient} {e : Event} {u : WsClient} → Step json c e u → HasPump c → HasPump u
  Step-HasPump (sends v c) p = Outcome-HasPump (send-Outcome json v c) p
  Step-HasPump (sends_reliably v expired c h) p =
      Outcome-HasPump (reliable-Outcome json v expired c h) p
  Step-HasPump (takes_drops c) p = unfold take_drops in p
  Step-HasPump (dials ok c h) p = dial-HasPump ok c h p
  Step-HasPump (starts c h) p = unfold start_pumps in tt
  Step-HasPump (takes b rest c w q) p = Fits-any c.phase c.writer (holding b) (idle-ne-stopped w) p
  Step-HasPump (writes b ok c w) p = write-HasPump ok c (λ e. cc) p
  Step-HasPump (pings ok c w) p = ping-HasPump ok c p
  Step-HasPump (stops_writing c w) p = unfold end_write_pump in Fits-stopped c.phase
  Step-HasPump (stops_reading c h) p = unfold end_read_pump in p
  Step-HasPump (ends c h r w) p = end_run-HasPump c w
  Step-HasPump (closes c) p = close-HasPump c p

  pub Run-HasPump : {es : List Event} {c : WsClient} → Run json es c → HasPump c
  Run-HasPump start = unfold new_client in refl
  Run-HasPump (then_step r s) = Step-HasPump s (Run-HasPump r)
