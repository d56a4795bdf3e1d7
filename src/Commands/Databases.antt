-- ===== src/Commands/Databases.antt =====
-- The commands db_create, db_start, db_stop, db_restart and db_remove of main.go, each from the
-- acquired handler to its return. Creates and removes of one name are serialised in DbOps.
pub mod Answered
pub mod Removed
use lattice_runner.Base.{
  ℕ, Bool, true, false, not, ◌&&◌, ◌||◌, Option, none, some, List, [], ◌∷◌, ◌++◌, Text, codes,
  if◌then◌else◌, is_nil, ℤ, pos, negsuc, ltb_ℤ,
}
use lattice_runner.Names.{valid_container_name}
use lattice_runner.Scheduler.Cron.{atoi}
use lattice_runner.Commands.{
  Json, null, bool, str, number, integer, object, Fields, end, field, get, as_string, as_bool,
  as_number, Envelope, normalise_memory_limit, format_int,
}
use lattice_runner.Commands.World.{
  DatabaseSpec, Call, start_container, stop_container, restart_container, remove_container,
  remove_volume, probe_port, Lookup, unknown, absent, found, Created, created, not_created, World,
  M, ◌>>=◌, ◌>>◌, call, find_container, create_database, is_create_cancelled, lifecycle,
  send_db_reply,
}

-- strconv.Atoi, where a text that is no number is 0.
int_of : Option Json → ℤ
int_of (some (number n)) = n
int_of (some (integer n)) = n
int_of (some (str s)) = elim (atoi s) [ none ↦ pos 0 | some n ↦ n ]
int_of _ = pos 0

unfoldable pub payload_int : Text → Fields → ℤ
unfolding int_of
payload_int k p = int_of (get k p)

abbrev pub db_status : Text
db_status = codes "db_status"

abbrev two : Text → Text → Fields → Fields
two k v rest = field k (str v) rest

unfoldable pub is_bad_name : Text → Bool
is_bad_name name = is_nil name || not (valid_container_name name)

-- The replies of these commands.
unfoldable pub bad_name : Text → Fields
bad_name action = two (codes "action") action (
    two (codes "status") (codes "error")
      (two (codes "message") (codes "invalid or missing container_name") end))

unfoldable pub failed_with : Text → Text → Text → Fields
failed_with name action message = two (codes "container_name") name (
    two (codes "action") action
      (two (codes "status") (codes "failed") (two (codes "message") message end)))

unfoldable pub succeeded : Text → Text → Fields → Fields
succeeded name action more =
    two (codes "container_name") name
      (two (codes "action") action (two (codes "status") (codes "success") more))

unfoldable pub accepted : Text → Text → Fields
accepted name action = two (codes "container_name") name (
    two (codes "action") action
      (two (codes "status") (codes "accepted") (two (codes "phase") (codes "ack") end)))

lookup_failed : Text → Text
lookup_failed e = codes "failed to look up container: " ++ e

module _ (w : World) (env : Envelope) where
  unfoldable pub reply : Fields → M (Unit {0})
  reply = send_db_reply env db_status

  abbrev name : Text
  name = as_string (get (codes "container_name") env.payload)

  -- The end of an action on the container that was found.
  act_answer : Text → Option Text → M (Unit {0})
  act_answer action none = reply (succeeded name action end)
  act_answer action (some e) = do lifecycle name action; reply (failed_with name action e)

  act_found : Text → (ℕ → Call) → Lookup → M (Unit {0})
  unfolding act_answer lookup_failed
  act_found action c (unknown e) = do
    lifecycle name action
    reply (failed_with name action (lookup_failed e))
  act_found action c absent = do
    lifecycle name action
    reply (failed_with name action (codes "container not found"))
  act_found action c (found id) = do
    lifecycle name action
    answer ← call w (c id)
    act_answer action answer

  -- The commands that make one call for an existing container.
  unfoldable pub act : Text → (ℕ → Call) → M (Unit {0})
  unfolding act_found
  act action c =
      if is_bad_name name
      then reply (bad_name action)
      else (do lifecycle name action; id ← find_container w name; act_found action c id)

  unfoldable pub db_start : M (Unit {0})
  db_start = act (codes "db_start") start_container

  unfoldable pub db_stop : M (Unit {0})
  db_stop = act (codes "db_stop") (λ id. stop_container id 30)

  unfoldable pub db_restart : M (Unit {0})
  db_restart = act (codes "db_restart") (λ id. restart_container id 30)

  abbrev text : Text → Text
  text k = as_string (get k env.payload)

  abbrev port : ℤ
  port = as_number (get (codes "port") env.payload)

  -- The volume of a create, by default that of the container's name.
  volume_of : Text
  volume_of =
      if is_nil (text (codes "volume_name"))
      then name ++ codes "-data"
      else text (codes "volume_name")

  unfoldable pub database_spec : DatabaseSpec
  unfolding volume_of
  database_spec = record {
    instance_id = payload_int (codes "database_instance_id") env.payload;
    container_name = name;
    volume_name = volume_of;
    engine = text (codes "engine");
    engine_version = text (codes "engine_version");
    port = port;
    root_password = text (codes "root_password");
    database_name = text (codes "database_name");
    username = text (codes "username");
    password = text (codes "password");
    cpu_limit = get (codes "cpu_limit") env.payload;
    memory_limit = normalise_memory_limit (as_number (get (codes "memory_limit") env.payload));
    adopt_volume = as_bool (get (codes "adopt_existing_volume") env.payload);
    binlog_retention_seconds = as_number (get (codes "binlog_retention_seconds") env.payload);
  }

  abbrev creating : Text
  creating = codes "db_create"

  cancelled_text : Text
  cancelled_text = codes "create cancelled by a remove of " ++ name

  create_failed : Text → M (Unit {0})
  unfolding cancelled_text
  create_failed e = do
    cancelled ← is_create_cancelled w
    lifecycle name creating
    reply (failed_with name creating (if cancelled then cancelled_text ++ codes ": " ++ e else e))

  create_done : Text → M (Unit {0})
  create_done id = do
    lifecycle name creating
    reply (succeeded name creating (two (codes "container_id") id end))

  create_answer : Created → M (Unit {0})
  unfolding create_failed create_done cancelled_text
  create_answer (not_created e) = create_failed e
  create_answer (created id) = do
    cancelled ← is_create_cancelled w
    if cancelled then create_failed cancelled_text else create_done id

  busy_text : Text → Text
  busy_text e = codes "host port " ++ (format_int port ++ (codes " is not available: " ++ e))

  create_probed : Option Text → M (Unit {0})
  unfolding create_answer busy_text
  create_probed (some e) = do
    lifecycle name creating
    reply (failed_with name creating (busy_text e))
  create_probed none = do
    lifecycle name creating
    answer ← create_database w database_spec
    create_answer answer

  -- The port is bound for a moment where one is asked for.
  probe : M (Option Text)
  probe = if ltb_ℤ (pos 0) port then call w (probe_port port) else λ t. (none, t)

  unfoldable pub db_create : M (Unit {0})
  unfolding create_probed probe
  db_create =
      if is_bad_name name
      then reply (bad_name creating)
      else (do reply (accepted name creating); busy ← probe; create_probed busy)

  abbrev removing : Text
  removing = codes "db_remove"

  abbrev remove_asked : Bool
  remove_asked = as_bool (get (codes "remove_volume") env.payload)

  abbrev volume : Text
  volume = text (codes "volume_name")

  remove_reply : Bool → M (Unit {0})
  remove_reply gone = do
    lifecycle name removing
    reply (succeeded name removing (field (codes "volume_removed") (bool gone) end))

  -- After the attempt to remove the volume.
  purged : Option Text → M (Unit {0})
  unfolding remove_reply
  purged none = remove_reply true
  purged (some e) = do
    lifecycle name removing
    reply (
        failed_with name removing (
          codes "container removed but data volume "
          ++ (volume ++ (codes " could not be deleted: " ++ e))))

  -- The container is gone, and the volume may have to go.
  purge : M (Unit {0})
  unfolding remove_reply purged
  purge =
      if not remove_asked
      then remove_reply false
      else (do lifecycle name removing; answer ← call w (remove_volume volume); purged answer)

  remove_answer : Option Text → M (Unit {0})
  unfolding purge
  remove_answer none = purge
  remove_answer (some e) = do lifecycle name removing; reply (failed_with name removing e)

  -- The container is stopped, and removed whatever the stop answers.
  remove_found : Lookup → M (Unit {0})
  unfolding remove_answer purge lookup_failed
  remove_found (unknown e) = do
    lifecycle name removing
    reply (failed_with name removing (lookup_failed e))
  remove_found absent = lifecycle name removing >> purge
  remove_found (found id) = do
    lifecycle name removing
    stop ← call w (stop_container id 10)
    lifecycle name removing
    answer ← call w (remove_container id)
    remove_answer answer

  -- `cancelled` is what beginDbRemove answers.
  removing_begun : Bool → M (Unit {0})
  unfolding remove_found
  removing_begun cancelled = do
    if cancelled then lifecycle name removing else λ t. (tt, t)
    lifecycle name removing
    id ← find_container w name
    remove_found id

  unfoldable pub db_remove : Bool → M (Unit {0})
  unfolding removing_begun
  db_remove cancelled =
      if is_bad_name name
      then reply (bad_name removing)
      else if remove_asked && is_bad_name volume
      then reply (
          failed_with name removing
            (codes "volume purge requested but volume_name is missing or invalid"))
      else removing_begun cancelled

-- The commands, a remove with what beginDbRemove answered.
pub data DbCommand : Type 0 where
  create start stop restart : DbCommand
  remove : Bool → DbCommand

unfoldable pub run_command : World → Envelope → DbCommand → M (Unit {0})
run_command w env create = db_create w env
run_command w env start = db_start w env
run_command w env stop = db_stop w env
run_command w env restart = db_restart w env
run_command w env (remove cancelled) = db_remove w env cancelled
