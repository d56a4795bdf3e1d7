-- ===== src/Commands/Snapshots/Answered.antt =====
-- How the commands on snapshots are answered.
use mathlib.Core.Path.{subst}
use lattice_runner.Base.{ℕ, ◌≡◌, refl, false, Option, none, some, Text, codes, text_eq, is_nil}
use lattice_runner.Commands.{Fields, get, phase_of, Envelope}
use lattice_runner.Commands.World.{
  make_temp_dir, download, open_file, gunzip, restore, delete_file, stream_snapshot, upload, Lookup,
  unknown, absent, found, Sized, failed, bytes, Trace, World, M, ◌>>=◌, ◌>>◌, find_container,
  lifecycle, send_db_reply,
}
use lattice_runner.Commands.Answers.{
  Answers, Answers-bind, Answers-if, Quiet, Quiet-call, Quiet-transfer, Quiet-lifecycle,
  Answers-completed, Answers-failed, Quiet-ack, Answers-find,
}
use lattice_runner.Commands.Databases.{is_bad_name, db_status, failed_with}
use lattice_runner.Commands.Snapshots.{
  snapshot_status, restore_status, mirror_status, delete_result, status_of, failed_status,
  by_answer, or_fail, name, login, remote_path, destination, missing_fields, snapshotting,
  snapshot_failed, snapshot_done, snapshot_found, uploading, db_snapshot, restoring, restore_failed,
  restore_logged, restore_reply, restore_into, restore_found, restore_download, db_restore,
  filename, mirror_reply, mirror_failed, destination_in, mirror_sized, mirror_between,
  db_mirror_snapshot, delete_reply, delete_failed, db_delete_snapshot_file, SnapshotCommand,
  snapshot, restoration, mirror, deletion, run_snapshot_command, reply_type,
}

by_answer-Answered :
    {ty : Text} {fail : Text → M (Unit {0})} {rest : M (Unit {0})}
    → ((e : Text) → Answers ty (fail e))
    → Answers ty rest
    → (o : Option Text) → Answers ty (by_answer fail rest o)
unfolding by_answer
by_answer-Answered f r none = r
by_answer-Answered f r (some e) = f e

Answers-or_fail :
    {ty : Text} {m : M (Option Text)} {fail : Text → M (Unit {0})} {rest : M (Unit {0})}
    → Quiet m
    → ((e : Text) → Answers ty (fail e))
    → Answers ty rest
    → Answers ty (or_fail m fail rest)
unfolding or_fail
Answers-or_fail {ty} {m} {fail} {rest} q f r = Answers-bind q (by_answer-Answered f r)

module _ (w : World) (env : Envelope) where
  mirror_failed-Answered : (reason : Text) → Answers mirror_status (mirror_failed w env reason)
  unfolding mirror_failed mirror_reply get phase_of text_eq
  mirror_failed-Answered reason = Answers-failed env mirror_status _ refl refl

  mirror_sized-Answered : (s : Sized) → Answers mirror_status (mirror_sized w env s)
  unfolding mirror_sized
  mirror_sized-Answered (failed e) = mirror_failed-Answered _
  mirror_sized-Answered (bytes n) =
      unfold mirror_reply get phase_of text_eq in Answers-completed env mirror_status _ refl refl

  mirror_between-Answered :
      (source target : Option Fields) → Answers mirror_status (mirror_between w env source target)
  unfolding mirror_between
  mirror_between-Answered (some source) (some target) =
      Answers-or_fail (Quiet-call w (destination_in w env source)) (λ e. mirror_failed-Answered _)
        (Answers-or_fail (Quiet-call w (destination_in w env target))
          (λ e. mirror_failed-Answered _)
          (Answers-or_fail (Quiet-call w make_temp_dir) (λ e. mirror_failed-Answered _)
            (Answers-or_fail (Quiet-call w (download (filename w env)))
              (λ e. mirror_failed-Answered _)
              (Answers-bind (Quiet-transfer w (upload (filename w env)))
                (λ s. mirror_sized-Answered s)))))
  mirror_between-Answered none target = mirror_failed-Answered _
  mirror_between-Answered (some source) none = mirror_failed-Answered _

  db_mirror-Answered : Answers mirror_status (db_mirror_snapshot w env)
  unfolding db_mirror_snapshot
  db_mirror-Answered =
      Answers-if (is_nil (filename w env)) (mirror_failed-Answered _) (mirror_between-Answered _ _)

  delete_failed-Answered : (message : Text) → Answers delete_result (delete_failed w env message)
  unfolding delete_failed delete_reply get phase_of text_eq
  delete_failed-Answered message = Answers-failed env delete_result _ refl refl

  db_delete-Answered : Answers delete_result (db_delete_snapshot_file w env)
  unfolding db_delete_snapshot_file
  db_delete-Answered = Answers-if (is_nil (remote_path w env)) (delete_failed-Answered _) (
      Answers-or_fail (Quiet-call w (destination w env)) (λ e. delete_failed-Answered _)
        (Answers-or_fail (Quiet-call w (delete_file (remote_path w env)))
          (λ e. delete_failed-Answered _)
          (unfold delete_reply get phase_of text_eq in
            Answers-completed env delete_result _ refl refl)))

  snapshot_failed-Answered :
      (message : Text) → Answers snapshot_status (snapshot_failed w env message)
  unfolding snapshot_failed failed_status status_of get phase_of text_eq
  snapshot_failed-Answered message = Answers-failed env snapshot_status _ refl refl

  restore_failed-Answered : (message : Text) → Answers restore_status (restore_failed w env message)
  unfolding restore_failed failed_status status_of get phase_of text_eq
  restore_failed-Answered message = Answers-failed env restore_status _ refl refl

  -- A lookup that fails is answered by a reply of another type.
  misplaced-Answered :
      (action message : Text)
      → Answers db_status (send_db_reply env db_status (failed_with (name w env) action message))
  unfolding failed_with get phase_of text_eq
  misplaced-Answered action message = Answers-failed env db_status _ refl refl

  logged-Answered :
      (ty action : Text) (m : M (Unit {0}))
      → Answers ty m
      → Answers ty (lifecycle (name w env) action >> m)
  logged-Answered ty action m h = Answers-bind (Quiet-lifecycle (name w env) action) (λ _. h)

  -- The type of the last reply, by the answer of the lookup.
  abbrev type_after : Text → Lookup → Text
  type_after ty (unknown e) = db_status
  type_after ty _ = ty

  snapshot_done-Answered : (s : Sized) → Answers snapshot_status (snapshot_done w env s)
  unfolding snapshot_done
  snapshot_done-Answered (failed e) =
      logged-Answered snapshot_status (snapshotting w env) _ (snapshot_failed-Answered e)
  snapshot_done-Answered (bytes n) =
      logged-Answered snapshot_status (snapshotting w env) _
        (unfold status_of get phase_of text_eq in Answers-completed env snapshot_status _ refl refl)

  snapshot_found-Answered :
      (l : Lookup) → Answers (type_after snapshot_status l) (snapshot_found w env l)
  unfolding snapshot_found
  snapshot_found-Answered (unknown e) =
      logged-Answered db_status (snapshotting w env) _ (misplaced-Answered (snapshotting w env) _)
  snapshot_found-Answered absent =
      logged-Answered snapshot_status (snapshotting w env) _ (snapshot_failed-Answered _)
  snapshot_found-Answered (found id) =
      Answers-or_fail (Quiet-call w (destination w env)) (λ e. snapshot_failed-Answered _)
        (logged-Answered snapshot_status (snapshotting w env) _ (
          Answers-bind (Quiet-transfer w (stream_snapshot id (login w env) (remote_path w env)))
            (λ s. snapshot_done-Answered s)))

  restore_logged-Answered : (message : Text) → Answers restore_status (restore_logged w env message)
  unfolding restore_logged
  restore_logged-Answered message =
      logged-Answered restore_status (restoring w env) _ (restore_failed-Answered message)

  restored-Answered : Answers restore_status (restore_reply w env (codes "completed"))
  unfolding restore_reply status_of get phase_of text_eq
  restored-Answered = Answers-completed env restore_status _ refl refl

  restore_into-Answered : (id : ℕ) → Answers restore_status (restore_into w env id)
  unfolding restore_into
  restore_into-Answered id =
      Answers-or_fail (Quiet-call w open_file) (λ e. restore_failed-Answered _)
        (Answers-or_fail (Quiet-call w gunzip) (λ e. restore_failed-Answered e)
          (Answers-or_fail (Quiet-call w (restore id (login w env)))
            (λ e. restore_logged-Answered _)
            (logged-Answered restore_status (restoring w env) _ restored-Answered)))

  restore_found-Answered :
      (l : Lookup) → Answers (type_after restore_status l) (restore_found w env l)
  unfolding restore_found
  restore_found-Answered (unknown e) =
      logged-Answered db_status (restoring w env) _ (misplaced-Answered (restoring w env) _)
  restore_found-Answered absent = restore_logged-Answered _
  restore_found-Answered (found id) =
      logged-Answered restore_status (restoring w env) _ (restore_into-Answered id)

  -- The lookup of a snapshot or a restore.
  find-Answered :
      (ty status : Text) (f : Lookup → M (Unit {0}))
      → ((l : Lookup) → Answers (type_after status l) (f l))
      → ((t : Trace) → type_after status (w.lookup t (name w env)) ≡ ty)
      → Answers ty (find_container w (name w env) >>= f)
  find-Answered ty status f h types = Answers-find w (name w env) f (λ t.
      subst (λ s. Answers s (f (w.lookup t (name w env)))) (types t) (h (w.lookup t (name w env))))

  uploading-Quiet : Quiet (uploading w env)
  unfolding uploading status_of get phase_of text_eq
  uploading-Quiet = Quiet-ack env snapshot_status _ refl refl

  downloading-Quiet : Quiet (restore_reply w env (codes "downloading"))
  unfolding restore_reply status_of get phase_of text_eq
  downloading-Quiet = Quiet-ack env restore_status _ refl refl

  -- The part of a snapshot after its checks.
  snapshot_rest-Answered :
      (ty : Text)
      → ((t : Trace) → type_after snapshot_status (w.lookup t (name w env)) ≡ ty)
      → Answers ty (
          uploading w env
          >> (lifecycle (name w env) (snapshotting w env)
              >> (find_container w (name w env) >>= snapshot_found w env)))
  snapshot_rest-Answered ty types = Answers-bind uploading-Quiet (λ _.
      logged-Answered ty (snapshotting w env) _
        (find-Answered ty snapshot_status (snapshot_found w env) snapshot_found-Answered types))

  -- Lookups that do not fail.
  abbrev pub Resolves : Lookup → Type 0
  Resolves (unknown e) = ⊥
  Resolves _ = Unit {0}

  -- Lookups that fail.
  abbrev pub Fails : Lookup → Type 0
  Fails (unknown e) = Unit {0}
  Fails _ = ⊥

  failed_type : (ty : Text) (l : Lookup) → Fails l → type_after ty l ≡ db_status
  failed_type ty (unknown e) h = refl
  failed_type ty absent h = absurd h
  failed_type ty (found id) h = absurd h

  resolved_type : (ty : Text) (l : Lookup) → Resolves l → type_after ty l ≡ ty
  resolved_type ty (unknown e) h = absurd h
  resolved_type ty absent h = refl
  resolved_type ty (found id) h = refl

  db_snapshot-Answered :
      ((t : Trace) → Resolves (w.lookup t (name w env)))
      → Answers snapshot_status (db_snapshot w env)
  unfolding db_snapshot
  db_snapshot-Answered h = Answers-if (is_bad_name (name w env)) (snapshot_failed-Answered _) (
      Answers-if (missing_fields w env) (snapshot_failed-Answered _)
        (snapshot_rest-Answered snapshot_status (λ t. resolved_type snapshot_status _ (h t))))

  restore_download-Answered :
      ((t : Trace) → Resolves (w.lookup t (name w env)))
      → Answers restore_status (restore_download w env)
  unfolding restore_download
  restore_download-Answered h =
      Answers-or_fail (Quiet-call w (destination w env)) (λ e. restore_failed-Answered _)
        (Answers-or_fail (Quiet-call w make_temp_dir) (λ e. restore_failed-Answered _)
          (Answers-or_fail (Quiet-call w (download (remote_path w env)))
            (λ e. restore_logged-Answered _)
            (logged-Answered restore_status (restoring w env) _ (
              find-Answered restore_status restore_status (restore_found w env)
                restore_found-Answered (λ t. resolved_type restore_status _ (h t))))))

  db_restore-Answered :
      ((t : Trace) → Resolves (w.lookup t (name w env))) → Answers restore_status (db_restore w env)
  unfolding db_restore
  db_restore-Answered h = Answers-if (is_bad_name (name w env)) (restore_failed-Answered _) (
      Answers-if (missing_fields w env) (restore_failed-Answered _) (
        Answers-bind downloading-Quiet
          (λ _. logged-Answered restore_status (restoring w env) _ (restore_download-Answered h))))

  -- Each command on snapshots is answered by exactly one reply that ends it, of the type that belongs
  -- to the command and in the phase "completed" or "failed", which is the last thing that the command
  -- does, whatever its payload and whatever the calls answer, but for a lookup of the container that
  -- fails; a reply before that one is in the phase "ack".
  pub snapshot_commands-Answered :
      ((t : Trace) → Resolves (w.lookup t (name w env)))
      → (c : SnapshotCommand) → Answers (reply_type c) (run_snapshot_command w env c)
  unfolding run_snapshot_command reply_type
  snapshot_commands-Answered h snapshot = db_snapshot-Answered h
  snapshot_commands-Answered h restoration = db_restore-Answered h
  snapshot_commands-Answered h mirror = db_mirror-Answered
  snapshot_commands-Answered h deletion = db_delete-Answered

  -- A db_snapshot whose payload is complete and whose lookup of the container fails is ended by a
  -- reply of the type db_status; it sends no reply of its own type, db_snapshot_status, that ends it.
  pub db_snapshot-unresolved :
      is_bad_name (name w env) ≡ false
      → missing_fields w env ≡ false
      → ((t : Trace) → Fails (w.lookup t (name w env)))
      → Answers db_status (db_snapshot w env)
  unfolding db_snapshot
  db_snapshot-unresolved good complete unresolved =
      rw (good, complete)
        (snapshot_rest-Answered db_status (λ t. failed_type snapshot_status _ (unresolved t)))
