-- ===== src/Commands/Snapshots.antt =====
-- The commands db_snapshot, db_restore, db_mirror_snapshot and db_delete_snapshot_file of main.go, each
-- from the acquired handler to its return. A destination is the value of the payload that names it.
pub mod Answered
use lattice_runner.Base.{
  ℕ, Bool, true, false, not, ◌&&◌, ◌||◌, Option, none, some, List, [], ◌∷◌, ◌++◌, Text, codes,
  if◌then◌else◌, is_nil, is_some, pos,
}
use lattice_runner.Commands.{
  Json, str, integer, Fields, end, field, get, as_string, as_object, Envelope, payload_string,
  backup_destination_from,
}
use lattice_runner.Commands.World.{
  Login, Call, new_destination, make_temp_dir, download, open_file, gunzip, restore, delete_file,
  Transfer, stream_snapshot, upload, Lookup, unknown, absent, found, Sized, failed, bytes, World, M,
  ◌>>=◌, ◌>>◌, call, find_container, transfer, lifecycle, send_db_reply,
}
use lattice_runner.Commands.Databases.{is_bad_name, db_status, failed_with}

abbrev pub snapshot_status : Text
snapshot_status = codes "db_snapshot_status"

abbrev pub restore_status : Text
restore_status = codes "db_restore_status"

abbrev pub mirror_status : Text
mirror_status = codes "db_mirror_status"

abbrev pub delete_result : Text
delete_result = codes "db_delete_snapshot_result"

-- A reply with the id of the work under its key, and with the container.
unfoldable pub status_of : Text → Text → Text → Text → Fields → Fields
status_of key id name status more =
    field key (str id)
      (field (codes "container_name") (str name) (field (codes "status") (str status) more))

unfoldable pub failed_status : Text → Text → Text → Text → Fields
unfolding status_of
failed_status key id name message =
    status_of key id name (codes "failed") (field (codes "error_message") (str message) end)

-- Steps that may fail, one after the other: the first error is handed on.
by_answer : (Text → M (Unit {0})) → M (Unit {0}) → Option Text → M (Unit {0})
by_answer fail rest none = rest
by_answer fail rest (some e) = fail e

unfoldable pub or_fail : M (Option Text) → (Text → M (Unit {0})) → M (Unit {0}) → M (Unit {0})
unfolding by_answer
or_fail m fail rest = m >>= by_answer fail rest

module _ (w : World) (env : Envelope) where
  abbrev text : Text → Text
  text k = as_string (get k env.payload)

  abbrev name : Text
  name = text (codes "container_name")

  login : Login
  login = record {
    engine = text (codes "engine");
    database = text (codes "database_name");
    username = text (codes "username");
    password = text (codes "password");
  }

  abbrev snapshot_id : Text
  snapshot_id = payload_string (codes "snapshot_id" ∷ []) env.payload

  abbrev remote_path : Text
  remote_path = payload_string (codes "remote_path" ∷ codes "filename" ∷ []) env.payload

  destination : Call
  destination =
      let (type, config) = backup_destination_from env.payload in new_destination type config

  unfoldable pub missing_fields : Bool
  missing_fields = is_nil (text (codes "engine")) || is_nil (text (codes "database_name"))

  abbrev snapshotting : Text
  snapshotting = codes "db_snapshot"

  snapshot_failed : Text → M (Unit {0})
  snapshot_failed message =
      send_db_reply env snapshot_status
        (failed_status (codes "snapshot_id") snapshot_id name message)

  snapshot_done : Sized → M (Unit {0})
  unfolding snapshot_failed
  snapshot_done (failed e) = lifecycle name snapshotting >> snapshot_failed e
  snapshot_done (bytes n) = do
    lifecycle name snapshotting
    send_db_reply env snapshot_status (
        status_of (codes "snapshot_id") snapshot_id name (codes "completed")
          (field (codes "size_bytes") (integer (pos n)) end))

  snapshot_found : Lookup → M (Unit {0})
  unfolding snapshot_failed snapshot_done destination login
  snapshot_found (unknown e) = do
    lifecycle name snapshotting
    send_db_reply env db_status
        (failed_with name snapshotting (codes "failed to look up container: " ++ e))
  snapshot_found absent =
      lifecycle name snapshotting >> snapshot_failed (codes "container not found")
  snapshot_found (found id) =
      or_fail (call w destination)
        (λ e. snapshot_failed (codes "failed to create backup destination: " ++ e))
        (do
          lifecycle name snapshotting
          size ← transfer w (stream_snapshot id login remote_path)
          snapshot_done size)

  uploading : M (Unit {0})
  uploading =
      send_db_reply env snapshot_status
        (status_of (codes "snapshot_id") snapshot_id name (codes "uploading") end)

  unfoldable pub db_snapshot : M (Unit {0})
  unfolding snapshot_failed snapshot_found missing_fields uploading
  db_snapshot =
      if is_bad_name name
      then snapshot_failed (codes "invalid or missing container_name")
      else if missing_fields
      then snapshot_failed (codes "missing required fields (engine, database_name)")
      else (do
        uploading
        lifecycle name snapshotting
        id ← find_container w name
        snapshot_found id)

  abbrev restore_id : Text
  restore_id = payload_string (codes "restore_id" ∷ codes "snapshot_id" ∷ []) env.payload

  abbrev restoring : Text
  restoring = codes "db_restore"

  restore_failed : Text → M (Unit {0})
  restore_failed message =
      send_db_reply env restore_status (failed_status (codes "restore_id") restore_id name message)

  restore_logged : Text → M (Unit {0})
  unfolding restore_failed
  restore_logged message = lifecycle name restoring >> restore_failed message

  restore_reply : Text → M (Unit {0})
  restore_reply status =
      send_db_reply env restore_status (status_of (codes "restore_id") restore_id name status end)

  -- The snapshot is on disk and the container is there.
  restore_into : ℕ → M (Unit {0})
  unfolding restore_failed restore_logged restore_reply login
  restore_into id =
      or_fail (call w open_file) (λ e. restore_failed (codes "failed to open restore file: " ++ e))
        (or_fail (call w gunzip) restore_failed (
          or_fail (call w (restore id login)) (λ e. restore_logged (codes "restore failed: " ++ e))
            (lifecycle name restoring >> restore_reply (codes "completed"))))

  restore_found : Lookup → M (Unit {0})
  unfolding restore_logged restore_into
  restore_found (unknown e) = do
    lifecycle name restoring
    send_db_reply env db_status
        (failed_with name restoring (codes "failed to look up container: " ++ e))
  restore_found absent = restore_logged (codes "container not found")
  restore_found (found id) = lifecycle name restoring >> restore_into id

  -- From the destination to the file on disk.
  restore_download : M (Unit {0})
  unfolding restore_failed restore_logged restore_found destination
  restore_download =
      or_fail (call w destination)
        (λ e. restore_failed (codes "failed to create backup destination: " ++ e))
        (or_fail (call w make_temp_dir)
          (λ e. restore_failed (codes "failed to create temp dir: " ++ e))
          (or_fail (call w (download remote_path))
            (λ e. restore_logged (codes "download failed: " ++ e))
            (do lifecycle name restoring; id ← find_container w name; restore_found id)))

  unfoldable pub db_restore : M (Unit {0})
  unfolding restore_failed restore_reply restore_download missing_fields
  db_restore =
      if is_bad_name name
      then restore_failed (codes "invalid or missing container_name")
      else if missing_fields
      then restore_failed (codes "missing required fields (engine, database_name)")
      else (do restore_reply (codes "downloading"); lifecycle name restoring; restore_download)

  abbrev filename : Text
  filename = payload_string (codes "filename" ∷ codes "remote_path" ∷ []) env.payload

  mirror_reply : Text → Fields → M (Unit {0})
  mirror_reply status more =
      send_db_reply env mirror_status
        (field (codes "filename") (str filename) (field (codes "status") (str status) more))

  mirror_failed : Text → M (Unit {0})
  unfolding mirror_reply
  mirror_failed reason =
      mirror_reply (codes "failed") (field (codes "error_message") (str reason) end)

  -- A nested destination of the payload, by its type and configuration.
  destination_in : Fields → Call
  destination_in m =
      new_destination (as_string (get (codes "type") m)) (as_object (get (codes "config") m))

  mirror_sized : Sized → M (Unit {0})
  unfolding mirror_reply mirror_failed
  mirror_sized (failed e) =
      mirror_failed (codes "failed to write " ++ (filename ++ (codes " to the mirror: " ++ e)))
  mirror_sized (bytes n) =
      mirror_reply (codes "completed") (field (codes "size_bytes") (integer (pos n)) end)

  mirror_between : Option Fields → Option Fields → M (Unit {0})
  unfolding mirror_failed destination_in mirror_sized
  mirror_between (some source) (some target) =
      or_fail (call w (destination_in source))
        (λ e. mirror_failed (codes "source destination unusable: " ++ e))
        (or_fail (call w (destination_in target))
          (λ e. mirror_failed (codes "target destination unusable: " ++ e))
          (or_fail (call w make_temp_dir)
            (λ e. mirror_failed (codes "failed to create temp dir: " ++ e))
            (or_fail (call w (download filename))
              (λ e. mirror_failed (
                codes "failed to read "
                ++ (filename ++ (codes " from the primary destination: " ++ e))))
              (transfer w (upload filename) >>= mirror_sized))))
  mirror_between _ _ =
      mirror_failed (codes "missing filename, source_destination or target_destination")

  unfoldable pub db_mirror_snapshot : M (Unit {0})
  unfolding mirror_failed mirror_between
  db_mirror_snapshot =
      if is_nil filename
      then mirror_failed (codes "missing filename, source_destination or target_destination")
      else mirror_between (as_object (get (codes "source_destination") env.payload))
          (as_object (get (codes "target_destination") env.payload))

  delete_reply : Text → Fields → M (Unit {0})
  delete_reply status more =
      send_db_reply env delete_result
        (field (codes "snapshot_id") (str snapshot_id) (field (codes "status") (str status) more))

  delete_failed : Text → M (Unit {0})
  unfolding delete_reply
  delete_failed message = delete_reply (codes "failed") (field (codes "message") (str message) end)

  unfoldable pub db_delete_snapshot_file : M (Unit {0})
  unfolding delete_reply delete_failed destination
  db_delete_snapshot_file =
      if is_nil remote_path
      then delete_failed (codes "missing remote_path/filename")
      else or_fail (call w destination)
          (λ e. delete_failed (codes "failed to create destination: " ++ e))
          (or_fail (call w (delete_file remote_path))
            (λ e. delete_failed (codes "delete failed: " ++ e))
            (delete_reply (codes "success") end))

-- The commands, and the type of the replies that the orchestrator waits for.
pub data SnapshotCommand : Type 0 where
  snapshot restoration mirror deletion : SnapshotCommand

unfoldable pub run_snapshot_command : World → Envelope → SnapshotCommand → M (Unit {0})
run_snapshot_command w env snapshot = db_snapshot w env
run_snapshot_command w env restoration = db_restore w env
run_snapshot_command w env mirror = db_mirror_snapshot w env
run_snapshot_command w env deletion = db_delete_snapshot_file w env

unfoldable pub reply_type : SnapshotCommand → Text
reply_type snapshot = snapshot_status
reply_type restoration = restore_status
reply_type mirror = mirror_status
reply_type deletion = delete_result
