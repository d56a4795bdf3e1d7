-- ===== src/Commands/Databases/Answered.antt =====
-- Each of these commands is answered by one reply that ends it.
use lattice_runner.Base.{
  ℕ, ◌≡◌, refl, Bool, true, false, not, ◌&&◌, Option, none, some, ◌++◌, Text, codes, text_eq,
  if◌then◌else◌, ltb_ℤ, pos,
}
use lattice_runner.Commands.{str, bool, Fields, field, end, get, phase_of, Envelope}
use lattice_runner.Commands.World.{
  Call, stop_container, remove_container, remove_volume, probe_port, Lookup, unknown, absent, found,
  Created, created, not_created, World, M, ◌>>◌, lifecycle,
}
use lattice_runner.Commands.Payloads.{phase_key}
use lattice_runner.Commands.Answers.{
  Answers, Answers-bind, Answers-if, Quiet, Quiet-if, Quiet-call, Quiet-find, Quiet-create,
  Quiet-cancelled, Quiet-lifecycle, Quiet-none, Answers-completed, Answers-failed, Quiet-ack_given,
}
use lattice_runner.Commands.Databases.{
  db_status, bad_name, failed_with, succeeded, accepted, is_bad_name, reply, name, act_answer,
  act_found, act, db_start, db_stop, db_restart, create_failed, create_done, create_answer,
  create_probed, probe, db_create, remove_reply, purged, purge, remove_answer, remove_found,
  removing_begun, db_remove, remove_asked, volume, cancelled_text, busy_text, lookup_failed, port,
  DbCommand, create, start, stop, restart, remove, run_command,
}

module _ (w : World) (env : Envelope) where
  abbrev Answered : M (Unit {0}) → Type 0
  Answered = Answers db_status

  bad_name-Answered : (action : Text) → Answered (reply w env (bad_name action))
  unfolding reply bad_name get phase_of text_eq
  bad_name-Answered action = Answers-failed env db_status (bad_name action) refl refl

  failed-Answered :
      (action message : Text) → Answered (reply w env (failed_with (name w env) action message))
  unfolding reply failed_with get phase_of text_eq
  failed-Answered action message =
      Answers-failed env db_status (failed_with (name w env) action message) refl refl

  succeeded-Answered :
      (action : Text) (more : Fields)
      → get phase_key more ≡ none
      → Answered (reply w env (succeeded (name w env) action more))
  unfolding reply succeeded get phase_of text_eq
  succeeded-Answered action more h =
      Answers-completed env db_status (succeeded (name w env) action more) h refl

  -- A line for the log, then the reply.
  logged-Answered :
      (action : Text) (m : M (Unit {0}))
      → Answered m
      → Answered (lifecycle (name w env) action >> m)
  logged-Answered action m h = Answers-bind (Quiet-lifecycle (name w env) action) (λ _. h)

  told-Answered :
      (action message : Text)
      → Answered
          (lifecycle (name w env) action >> reply w env (failed_with (name w env) action message))
  told-Answered action message = logged-Answered action _ (failed-Answered action message)

  act_answer-Answered : (action : Text) (o : Option Text) → Answered (act_answer w env action o)
  unfolding act_answer
  act_answer-Answered action none = unfold get in succeeded-Answered action end refl
  act_answer-Answered action (some e) = told-Answered action e

  act_found-Answered :
      (action : Text) (c : ℕ → Call) (l : Lookup) → Answered (act_found w env action c l)
  unfolding act_found
  act_found-Answered action c (unknown e) = told-Answered action (lookup_failed e)
  act_found-Answered action c absent = told-Answered action (codes "container not found")
  act_found-Answered action c (found id) =
      Answers-bind (Quiet-lifecycle _ action)
        (λ _. Answers-bind (Quiet-call w (c id)) (λ o. act_answer-Answered action o))

  pub act-Answered : (action : Text) (c : ℕ → Call) → Answered (act w env action c)
  unfolding act
  act-Answered action c = Answers-if (is_bad_name (name w env)) (bad_name-Answered action) (
      Answers-bind (Quiet-lifecycle _ action)
        (λ _. Answers-bind (Quiet-find w (name w env)) (λ l. act_found-Answered action c l)))

  abbrev creating_action : Text
  creating_action = codes "db_create"

  abbrev removing_action : Text
  removing_action = codes "db_remove"

  probe-Quiet : Quiet (probe w env)
  unfolding probe
  probe-Quiet =
      Quiet-if (ltb_ℤ (pos 0) (port w env)) (Quiet-call w (probe_port (port w env)))
        (Quiet-none none)

  accepted-Quiet : Quiet (reply w env (accepted (name w env) creating_action))
  unfolding reply accepted get text_eq
  accepted-Quiet = Quiet-ack_given env db_status (accepted (name w env) creating_action) refl

  create_failed-Answered : (e : Text) → Answered (create_failed w env e)
  unfolding create_failed
  create_failed-Answered e = Answers-bind (Quiet-cancelled w) (λ c.
      told-Answered creating_action (if c then cancelled_text w env ++ codes ": " ++ e else e))

  create_done-Answered : (id : Text) → Answered (create_done w env id)
  unfolding create_done
  create_done-Answered id = logged-Answered creating_action _ (
      unfold get text_eq in
      succeeded-Answered creating_action (field (codes "container_id") (str id) end) refl)

  create_answer-Answered : (c : Created) → Answered (create_answer w env c)
  unfolding create_answer
  create_answer-Answered (not_created e) = create_failed-Answered e
  create_answer-Answered (created id) =
      Answers-bind (Quiet-cancelled w) (λ c.
        Answers-if c (create_failed-Answered (cancelled_text w env)) (create_done-Answered id))

  create_probed-Answered : (o : Option Text) → Answered (create_probed w env o)
  unfolding create_probed
  create_probed-Answered (some e) = told-Answered creating_action (busy_text w env e)
  create_probed-Answered none =
      logged-Answered creating_action _
        (Answers-bind (Quiet-create w _) (λ c. create_answer-Answered c))

  db_create-Answered : Answered (db_create w env)
  unfolding db_create
  db_create-Answered =
      Answers-if (is_bad_name (name w env)) (bad_name-Answered creating_action) (
        Answers-bind accepted-Quiet (λ _. Answers-bind probe-Quiet (λ o. create_probed-Answered o)))

  remove_reply-Answered : (gone : Bool) → Answered (remove_reply w env gone)
  unfolding remove_reply
  remove_reply-Answered gone = logged-Answered removing_action _ (
      unfold get text_eq in
      succeeded-Answered removing_action (field (codes "volume_removed") (bool gone) end) refl)

  purged-Answered : (o : Option Text) → Answered (purged w env o)
  unfolding purged
  purged-Answered none = remove_reply-Answered true
  purged-Answered (some e) = told-Answered removing_action _

  purge-Answered : Answered (purge w env)
  unfolding purge
  purge-Answered = Answers-if (not (remove_asked w env)) (remove_reply-Answered false) (
      logged-Answered removing_action _
        (Answers-bind (Quiet-call w (remove_volume (volume w env))) (λ o. purged-Answered o)))

  remove_answer-Answered : (o : Option Text) → Answered (remove_answer w env o)
  unfolding remove_answer
  remove_answer-Answered none = purge-Answered
  remove_answer-Answered (some e) = told-Answered removing_action e

  remove_found-Answered : (l : Lookup) → Answered (remove_found w env l)
  unfolding remove_found
  remove_found-Answered (unknown e) = told-Answered removing_action (lookup_failed e)
  remove_found-Answered absent = logged-Answered removing_action _ purge-Answered
  remove_found-Answered (found id) = logged-Answered removing_action _ (
      Answers-bind (Quiet-call w (stop_container id 10)) (λ _.
        logged-Answered removing_action _
          (Answers-bind (Quiet-call w (remove_container id)) (λ o. remove_answer-Answered o))))

  removing_begun-Answered : (cancelled : Bool) → Answered (removing_begun w env cancelled)
  unfolding removing_begun
  removing_begun-Answered cancelled =
      Answers-bind
        (Quiet-if cancelled (Quiet-lifecycle (name w env) removing_action) (Quiet-none tt))
        (λ _.
          logged-Answered removing_action _
            (Answers-bind (Quiet-find w (name w env)) (λ l. remove_found-Answered l)))

  db_remove-Answered : (cancelled : Bool) → Answered (db_remove w env cancelled)
  unfolding db_remove
  db_remove-Answered cancelled =
      Answers-if (is_bad_name (name w env)) (bad_name-Answered removing_action) (
        Answers-if (remove_asked w env && is_bad_name (volume w env))
          (failed-Answered removing_action _) (removing_begun-Answered cancelled))

  -- Each command that creates, starts, stops, restarts or removes a database is answered by exactly
  -- one reply that ends it, a db_status in the phase "completed" or "failed", which is the last thing
  -- that the command does, whatever its payload and whatever the calls answer; a reply before that
  -- one is in the phase "ack".
  pub commands-Answered : (c : DbCommand) → Answers db_status (run_command w env c)
  unfolding run_command db_start db_stop db_restart
  commands-Answered create = db_create-Answered
  commands-Answered start = act-Answered _ _
  commands-Answered stop = act-Answered _ _
  commands-Answered restart = act-Answered _ _
  commands-Answered (remove cancelled) = db_remove-Answered cancelled
