-- ===== src/Commands/Tests.antt =====
-- Commands on a database "pg", and the theorems at them.
use lattice_runner.Base.{◌≡◌, ◌+◌, ◌*◌, refl, arith, true, false, none, [], Text, codes, text_eq}
use lattice_runner.Names.{valid_container_name, canonical_container_name}
use lattice_runner.Commands.{
  str, bool, end, field, get, as_string, as_bool, put_new, echoed, phase_of, build_db_reply_payload,
  Envelope,
}
use lattice_runner.Commands.World.{
  found, unknown, created, bytes, World, ◌>>=◌, call, find_container, lifecycle, send_db_reply,
}
use lattice_runner.Commands.Answers.{Answers}
use lattice_runner.Commands.Locks.{lock_rounds, wait_lock, lock_container}
use lattice_runner.Commands.Locks.Waits.{Locking, IsLate, lock_container-patient}
use lattice_runner.Commands.Containers.{remove, run_container_command}
use lattice_runner.Commands.Containers.Reports.{Report, name_of, run_container_command-Report}
use lattice_runner.Commands.Databases.{
  db_status, is_bad_name, reply, restart, run_command, db_remove, succeeded,
}
use lattice_runner.Commands.Databases.Answered.{commands-Answered}
use lattice_runner.Commands.Databases.Removed.{says_success, Gone, VolumeGone, db_remove-Honest}
use lattice_runner.Commands.Snapshots.{
  missing_fields, snapshot, run_snapshot_command, reply_type, db_snapshot,
}
use lattice_runner.Commands.Snapshots.Answered.{snapshot_commands-Answered, db_snapshot-unresolved}

abbrev working : World
working = record {
  answer = λ t c. none;
  lookup = λ t n. found 7;
  create = λ t s. created (codes "abc");
  transfer = λ t c. bytes 10;
  create_cancelled = λ t. false;
  try_lock = λ t n. false;
  waited = λ t n. 300 * n;
}

abbrev failing : World
failing = record working { lookup = λ t n. unknown (codes "no daemon") }

abbrev command : Text → Envelope
command type = record {
  type = type;
  payload = field (codes "container_name") (str (codes "pg")) (
      field (codes "remove_volume") (bool true) (
        field (codes "volume_name") (str (codes "pg-data")) (
          field (codes "engine") (str (codes "postgres"))
            (field (codes "database_name") (str (codes "app")) end))));
}

commands-Answered_example :
    Answers db_status (run_command working (command (codes "db_restart")) restart)
commands-Answered_example = commands-Answered working (command (codes "db_restart")) restart

removes : says_success (db_remove working (command (codes "db_remove")) false []).1 ≡ true
unfolding db_remove is_bad_name valid_container_name get as_string as_bool text_eq says_success
    ◌>>=◌ call find_container lifecycle send_db_reply reply succeeded build_db_reply_payload echoed
    put_new phase_of
removes = refl

snapshot_commands-Answered_example :
    Answers
      (reply_type snapshot)
      (run_snapshot_command working (command (codes "db_snapshot")) snapshot)
snapshot_commands-Answered_example =
    snapshot_commands-Answered working (command (codes "db_snapshot")) (λ t. tt) snapshot

db_snapshot-unresolved_example :
    Answers db_status (db_snapshot failing (command (codes "db_snapshot")))
unfolding is_bad_name valid_container_name missing_fields get as_string text_eq
db_snapshot-unresolved_example =
    db_snapshot-unresolved failing (command (codes "db_snapshot")) refl refl (λ t. tt)

db_remove-Honest_example :
    Gone working
      (command (codes "db_remove"))
      (db_remove working (command (codes "db_remove")) false []).1
    × VolumeGone working
        (command (codes "db_remove"))
        (db_remove working (command (codes "db_remove")) false []).1
db_remove-Honest_example = db_remove-Honest working (command (codes "db_remove")) false removes

run_container_command-Report_example :
    Report working remove
      (name_of (command (codes "remove")))
      []
      (run_container_command working (command (codes "remove")) remove []).1
run_container_command-Report_example =
    run_container_command-Report working (command (codes "remove")) remove []

-- The lock of "pg" stays held.
lock_container-patient_example :
    Locking working
      (canonical_container_name (codes "pg-retired-7"))
      (IsLate working)
      []
      (lock_container working (codes "pg-retired-7") []).0
      (lock_container working (codes "pg-retired-7") []).1
    × (wait_lock working (canonical_container_name (codes "pg-retired-7")) (lock_rounds + 100) 0 []
        ≡ wait_lock working (canonical_container_name (codes "pg-retired-7")) lock_rounds 0 [])
lock_container-patient_example =
    lock_container-patient working (codes "pg-retired-7") [] [] 100 (λ u n. omega arith)
