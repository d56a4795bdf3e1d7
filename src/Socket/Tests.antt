-- ===== src/Socket/Tests.antt =====
-- Runs of a client whose messages are texts, and the theorems at them.
use lattice_runner.Base.{
  true, false, ◌≡◌, ◌+◌, ◌≤◌, refl, none, some, List, [], ◌∷◌, ◌++◌, Text, codes, is_nil,
  if◌then◌else◌,
}
use lattice_runner.Socket.{
  Json, WsClient, new_client, accepted, refused, count_in, count_drop, take_drops, send_json,
  send_json_reliable, send_encoded, send_waiting, enqueue, drop_message, message_type, dial,
  start_pumps, close, write_taken, Event, sent, wrote, lost, connected, silent, holding, stopped,
  idle, running, sends, sends_reliably, dials, starts, takes, writes, closes, Run, start, then_step,
}
use lattice_runner.Socket.Order.{queued_in, gone_in, pending, Run-order}
use lattice_runner.Socket.Drops.{refused_in, reported_in, count, Run-drops}
use lattice_runner.Socket.Losses.{lost_in, connected_in, Run-losses}

-- A message is its own type field; the empty text cannot be encoded.
abbrev plain : Json Text
plain = record { marshal = λ v. if is_nil v then none else some v; type_field = λ b. some b }

abbrev online : WsClient
online = record {
  queue = [];
  conn = true;
  closed = false;
  drops = none;
  phase = running;
  reading = true;
  writer = idle;
  cancelled = false;
}

abbrev two_sent : WsClient
two_sent = record online { queue = codes "a" ∷ codes "b" ∷ [] }

abbrev one_written : WsClient
one_written = record online { queue = codes "b" ∷ [] }

abbrev last_taken : WsClient
last_taken = record online { queue = []; writer = holding (codes "b") }

abbrev last_lost : WsClient
last_lost = record last_taken { closed = true; writer = stopped }

abbrev to_online : List Event
to_online = connected ∷ silent ∷ []

goes_online : Run plain to_online online
unfolding new_client dial start_pumps
goes_online =
    then_step (then_step start (dials true new_client refl)) (starts (dial true new_client) refl)

abbrev events : List Event
events =
    lost (codes "b")
    ∷ silent
    ∷ silent
    ∷ wrote (codes "a")
    ∷ silent
    ∷ sent (accepted (codes "b"))
    ∷ sent (accepted (codes "a"))
    ∷ to_online

sends_two :
    Run plain (sent (accepted (codes "b")) ∷ sent (accepted (codes "a")) ∷ to_online) two_sent
unfolding send_json send_encoded enqueue
sends_two =
    then_step (then_step goes_online (sends (codes "a") online))
      (sends (codes "b") (record online { queue = codes "a" ∷ [] }))

-- The queue is empty and the last message is with the write pump when the client is closed: the
-- message is lost.
loses_last : Run plain events last_lost
unfolding write_taken close
loses_last =
    then_step
      (then_step
        (then_step
          (then_step (then_step sends_two (takes (codes "a") (codes "b" ∷ []) two_sent refl refl))
            (writes (codes "a") true (record one_written { writer = holding (codes "a") }) refl))
          (takes (codes "b") [] one_written refl refl))
        (closes last_taken))
      (writes (codes "b") true (record last_taken { closed = true }) refl)

Run-order_example : queued_in events ≡ gone_in events ++ pending last_lost
Run-order_example = Run-order plain loses_last

Run-losses_example : lost_in events ≤ connected_in events
Run-losses_example = Run-losses plain loses_last

-- The timer of a reliable call fires, and its drop is reported.
abbrev dropped : WsClient
dropped = record online { drops = some ((codes "a", 1) ∷ []) }

drops_one : Run plain (sent (refused (codes "a")) ∷ to_online) dropped
unfolding send_json_reliable send_waiting drop_message message_type count_drop count_in
drops_one = then_step goes_online (sends_reliably (codes "a") true online refl)

Run-drops_example :
    refused_in (codes "a") (sent (refused (codes "a")) ∷ to_online)
    ≡ reported_in (codes "a") (sent (refused (codes "a")) ∷ to_online)
      + count (codes "a") (take_drops dropped).1
Run-drops_example = Run-drops plain (codes "a") drops_one
