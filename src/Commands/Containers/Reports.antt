-- ===== src/Commands/Containers/Reports.antt =====
-- What the reply of a container command says of the calls that were made, and the lock around them.
use lattice_runner.Base.{
  ◌≡◌, refl, ℕ, Bool, true, false, not, Option, none, some, ◌∷◌, Text, codes, text_eq, is_nil,
  Bool-cases, inl, inr,
}
use lattice_runner.Names.{valid_container_name, canonical_container_name}
use lattice_runner.Commands.{str, Fields, get, as_string, Envelope}
use lattice_runner.Commands.World.{
  Call, start_container, stop_container, restart_container, remove_container, kill_container,
  pause_container, unpause_container, Lookup, unknown, absent, found, Event, called, replied,
  locked, refused, gave_up, unlocked, Trace, World, ◌>>=◌, call, find_container, lifecycle, ws_send,
}
use lattice_runner.Commands.Locks.{unlock_container}
use lattice_runner.Commands.Locks.Waits.{Locking, Anyhow, lock_container-Locking}
use lattice_runner.Commands.Payloads.{status_key}
use lattice_runner.Commands.Containers.{
  Action, stop, start, kill, pause, unpause, restart, remove, container_status, log_action,
  finish_action, call_action, not_found, perform, under_lock, handle_action, handle_stop,
  handle_start, handle_kill, handle_pause, handle_unpause, handle_restart, handle_remove,
  run_container_command,
}

abbrev pub IsStatus : Text → Fields → Type 0
IsStatus s p = get status_key p ≡ some (str s)

-- Neither a reply nor anything about a lock.
abbrev pub IsSilent : Event → Type 0
IsSilent (replied msg_type p) = ⊥
IsSilent (locked name) = ⊥
IsSilent (refused name) = ⊥
IsSilent (gave_up name) = ⊥
IsSilent (unlocked name) = ⊥
IsSilent _ = Unit {0}

pub data Silent (t : Trace) : Trace → Type 0 where
  here : Silent t t
  next : {e : Event} {u : Trace} → IsSilent e → Silent t u → Silent t (e ∷ u)

-- The call whose answer decides about a command.
abbrev pub deciding_call : Action → ℕ → Call
deciding_call stop id = stop_container id 30
deciding_call start id = start_container id
deciding_call kill id = kill_container id
deciding_call pause id = pause_container id
deciding_call unpause id = unpause_container id
deciding_call restart id = restart_container id 30
deciding_call remove id = remove_container id

-- What is done once the wait for the lock is over, with the reply as its last event.
pub data Done (a : Action) (t : Trace) : Trace → Type 0 where
  fails :
      {u : Trace} (p : Fields)
      → IsStatus (codes "failed") p
      → Silent t u
      → Done a t (replied container_status p ∷ u)
  succeeds :
      {u : Trace} (id : ℕ) (p : Fields)
      → IsStatus (codes "success") p
      → Silent t u
      → Done a t (replied container_status p ∷ called (deciding_call a id) none ∷ u)

-- A command that is refused does nothing but reply; any other waits for the lock first, and unlocks
-- last what it has locked.
pub data Report (w : World) (a : Action) (name : Text) (t : Trace) : Trace → Type 0 where
  refuses :
      (p : Fields) → IsStatus (codes "error") p → Report w a name t (replied container_status p ∷ t)
  obeys :
      {u v : Trace}
      → Locking w (canonical_container_name name) Anyhow t true u
      → Done a u v
      → Report w a name t (unlocked (canonical_container_name name) ∷ v)
  goes_on :
      {u v : Trace}
      → Locking w (canonical_container_name name) Anyhow t false u
      → Done a u v
      → Report w a name t v

module _ (w : World) (name : Text) where
  finish_action-Done :
      (a : Action) (id : ℕ) (r : Option Text) {t u : Trace}
      → Silent t u
      → Done a t (finish_action w a name r (called (deciding_call a id) r ∷ u)).1
  unfolding finish_action log_action lifecycle ws_send ◌>>=◌ get text_eq
  finish_action-Done a id none s = succeeds id _ refl s
  finish_action-Done a id (some e) s = fails _ refl (next tt (next tt s))

  perform-Done :
      (a : Action) (l : Lookup) {t u : Trace} → Silent t u → Done a t (perform w a name l u).1
  unfolding perform call_action log_action not_found lifecycle call ws_send ◌>>=◌ get text_eq
  perform-Done a (unknown e) s = fails _ refl (next tt s)
  perform-Done a absent s = fails _ refl (next tt s)
  perform-Done stop (found id) s = finish_action-Done stop id _ (next tt s)
  perform-Done start (found id) s = finish_action-Done start id _ (next tt s)
  perform-Done kill (found id) s = finish_action-Done kill id _ (next tt s)
  perform-Done pause (found id) s = finish_action-Done pause id _ (next tt s)
  perform-Done unpause (found id) s = finish_action-Done unpause id _ (next tt s)
  perform-Done restart (found id) s = finish_action-Done restart id _ (next tt s)
  perform-Done remove (found id) s = finish_action-Done remove id _ (next tt (next tt (next tt s)))

  release-Report :
      (a : Action) (held : Bool) {t u v : Trace}
      → Locking w (canonical_container_name name) Anyhow t held u
      → Done a u v
      → Report w a name t (unlock_container name held v).1
  unfolding unlock_container
  release-Report a true wait d = obeys wait d
  release-Report a false wait d = goes_on wait d

  under_lock-Report : (a : Action) (t : Trace) → Report w a name t (under_lock w a name t).1
  unfolding under_lock log_action lifecycle find_container ◌>>=◌
  under_lock-Report a t =
      release-Report a _ (lock_container-Locking w name t)
        (perform-Done a _ (next tt (next tt here)))

-- The name that a command is about.
abbrev pub name_of : Envelope → Text
name_of env = as_string (get (codes "container_name") env.payload)

handle_action-Report :
    (w : World) (env : Envelope) (a : Action) (t : Trace)
    → Report w a (name_of env) t (handle_action w env a t).1
unfolding handle_action ws_send get text_eq
handle_action-Report w env a t =
    let name : Text = name_of env in
    elim (Bool-cases (is_nil name)) [
      | inl h ↦ rw h (refuses _ refl)
      | inr h ↦ elim (Bool-cases (not (valid_container_name name))) [
        | inl k ↦ rw (h, k) (refuses _ refl)
        | inr k ↦ rw (h, k) (under_lock-Report w name a t)
      ]
    ]

-- A command that stops, starts, kills, pauses, unpauses, restarts or removes a container sends just
-- one reply, a container_status, whatever its payload and whatever the calls answer. Either the
-- reply has the status "error" and the command does nothing else; or the command first waits for
-- the lock of the container's canonical name, by attempts alone, and does all the rest after that
-- wait: where it has got the lock it releases it last, after the reply, and where it has given the
-- wait up it goes on without the lock and releases nothing. In both cases the reply has the status
-- "failed", or the status "success" right after the call that decides about the command has
-- succeeded.
pub run_container_command-Report :
    (w : World) (env : Envelope) (a : Action) (t : Trace)
    → Report w a (name_of env) t (run_container_command w env a t).1
unfolding run_container_command handle_stop handle_start handle_kill handle_pause handle_unpause
    handle_restart handle_remove
run_container_command-Report w env stop t = handle_action-Report w env stop t
run_container_command-Report w env start t = handle_action-Report w env start t
run_container_command-Report w env kill t = handle_action-Report w env kill t
run_container_command-Report w env pause t = handle_action-Report w env pause t
run_container_command-Report w env unpause t = handle_action-Report w env unpause t
run_container_command-Report w env restart t = handle_action-Report w env restart t
run_container_command-Report w env remove t = handle_action-Report w env remove t
