-- ===== src/Commands/Containers.antt =====
-- The commands stop, start, kill, pause, unpause, restart and remove of main.go, each from the
-- acquired handler to its return.
pub mod Reports
use lattice_runner.Base.{ℕ, not, Option, none, some, Text, codes, if◌then◌else◌, is_nil}
use lattice_runner.Names.{valid_container_name}
use lattice_runner.Commands.{str, Fields, end, field, get, as_string, Envelope}
use lattice_runner.Commands.World.{
  Call, start_container, stop_container, restart_container, remove_container, kill_container,
  pause_container, unpause_container, Lookup, unknown, absent, found, World, M, ◌>>=◌, ◌>>◌, call,
  find_container, lifecycle, ws_send,
}
use lattice_runner.Commands.Locks.{lock_container, unlock_container}

pub data Action : Type 0 where
  stop : Action
  start : Action
  kill : Action
  pause : Action
  unpause : Action
  restart : Action
  remove : Action

unfoldable pub action_name : Action → Text
action_name stop = codes "stop"
action_name start = codes "start"
action_name kill = codes "kill"
action_name pause = codes "pause"
action_name unpause = codes "unpause"
action_name restart = codes "restart"
action_name remove = codes "remove"

abbrev pub container_status : Text
container_status = codes "container_status"

module _ (w : World) (action : Action) (name : Text) where
  -- The fields of every reply, and those of a reply that says why.
  abbrev pub status_fields : Text → Fields → Fields
  status_fields status more =
      field (codes "container_name") (str name) (
        field (codes "action") (str (action_name action))
          (field (codes "status") (str status) more))

  abbrev pub reply_because : Text → Text → M (Unit {0})
  reply_because status message =
      ws_send container_status (status_fields status (field (codes "message") (str message) end))

  log_action : M (Unit {0})
  log_action = lifecycle name (action_name action)

  -- The end of a command, after its last call.
  unfoldable pub finish_action : Option Text → M (Unit {0})
  unfolding log_action
  finish_action (some e) = do log_action; reply_because (codes "failed") e
  finish_action none = ws_send container_status (status_fields (codes "success") end)

  -- A stop before a removal counts for nothing: the removal is forced.
  unfoldable pub call_action : ℕ → Action → M (Option Text)
  unfolding log_action
  call_action id stop = call w (stop_container id 30)
  call_action id start = call w (start_container id)
  call_action id kill = call w (kill_container id)
  call_action id pause = call w (pause_container id)
  call_action id unpause = call w (unpause_container id)
  call_action id restart = call w (restart_container id 30)
  call_action id remove = do
    stopped ← call w (stop_container id 10)
    log_action
    call w (remove_container id)

  not_found : M (Unit {0})
  unfolding log_action
  not_found = do log_action; reply_because (codes "failed") (codes "container not found")

  unfoldable pub perform : Lookup → M (Unit {0})
  unfolding log_action not_found
  perform (unknown e) = not_found
  perform absent = not_found
  perform (found id) = do log_action; answer ← call_action id action; finish_action answer

  unfoldable pub under_lock : M (Unit {0})
  unfolding log_action
  under_lock = do
    held ← lock_container w name
    log_action
    id ← find_container w name
    perform id
    unlock_container name held

module _ (w : World) (env : Envelope) where
  -- The guards on the payload, which all of the handlers begin with.
  unfoldable pub handle_action : Action → M (Unit {0})
  handle_action action =
      let name : Text = as_string (get (codes "container_name") env.payload) in
      if is_nil name
      then reply_because w action name (codes "error") (codes "missing container_name")
      else (if not (valid_container_name name)
          then reply_because w action name (codes "error") (codes "invalid container_name")
          else under_lock w action name)

  unfoldable pub handle_stop : M (Unit {0})
  handle_stop = handle_action stop

  unfoldable pub handle_start : M (Unit {0})
  handle_start = handle_action start

  unfoldable pub handle_kill : M (Unit {0})
  handle_kill = handle_action kill

  unfoldable pub handle_pause : M (Unit {0})
  handle_pause = handle_action pause

  unfoldable pub handle_unpause : M (Unit {0})
  handle_unpause = handle_action unpause

  unfoldable pub handle_restart : M (Unit {0})
  handle_restart = handle_action restart

  unfoldable pub handle_remove : M (Unit {0})
  handle_remove = handle_action remove

  -- The cases of the loop over the commands.
  unfoldable pub run_container_command : Action → M (Unit {0})
  run_container_command stop = handle_stop
  run_container_command start = handle_start
  run_container_command kill = handle_kill
  run_container_command pause = handle_pause
  run_container_command unpause = handle_unpause
  run_container_command restart = handle_restart
  run_container_command remove = handle_remove
