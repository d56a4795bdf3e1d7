-- ===== src/Commands/Databases/Removed.antt =====
-- A remove that reports success has removed what it was asked to remove.
use lattice_runner.Base.{
  ℕ, ◌≡◌, ◌⊎◌, refl, ap, Bool, true, false, not, ◌&&◌, Option, none, some, [], ◌∷◌, Text, codes,
  text_eq, if◌then◌else◌, Any, inl, inr,
}
use lattice_runner.Commands.{bool, field, end, get, as_string, Envelope, build_db_reply_payload}
use lattice_runner.Commands.World.{
  Call, remove_container, remove_volume, Lookup, unknown, absent, found, Event, called, looked,
  logged, replied, Trace, World, M, ◌>>=◌, ◌>>◌, call, find_container, lifecycle, send_db_reply,
}
use lattice_runner.Commands.Payloads.{status_key, status-build}
use lattice_runner.Commands.Databases.{
  db_status, bad_name, failed_with, succeeded, is_bad_name, reply, name, remove_reply, purged,
  purge, remove_answer, remove_found, removing_begun, db_remove, remove_asked, volume, removing,
  lookup_failed,
}

-- The last event is a reply of success.
unfoldable pub says_success : Trace → Bool
says_success (replied ty p ∷ u) = text_eq (as_string (get status_key p)) (codes "success")
says_success _ = false

not-true : (b : Bool) → not b ≡ true → b ≡ false
not-true true h = absurd (cc)
not-true false h = refl

module _ (w : World) (env : Envelope) where
  abbrev pub Happened : Event → Trace → Type 0
  Happened e t = Any (λ (d : Event). d ≡ e) t

  -- The container was absent, or was found and removed.
  pub data Gone (t : Trace) : Type 0 where
    was_absent : Happened (looked (name w env) absent) t → Gone t
    was_removed :
        (id : ℕ)
        → Happened (looked (name w env) (found id)) t
        → Happened (called (remove_container id) none) t
        → Gone t

  abbrev pub VolumeGone : Trace → Type 0
  VolumeGone t =
      (remove_asked w env ≡ false) ⊎ Happened (called (remove_volume (volume w env)) none) t

  Gone-later : (e : Event) (t : Trace) → Gone t → Gone (e ∷ t)
  Gone-later e t (was_absent h) = was_absent (inr h)
  Gone-later e t (was_removed id h k) = was_removed id (inr h) (inr k)

  abbrev Honest : Trace → Type 0
  Honest t = says_success t ≡ true → Gone t × VolumeGone t

  failed-Honest :
      (action message : Text) (t : Trace)
      → Honest (reply w env (failed_with (name w env) action message) t).1
  unfolding reply send_db_reply says_success failed_with get text_eq as_string
  failed-Honest action message t h =
      absurd (cc (h, ap as_string (status-build env (failed_with (name w env) action message))))

  told-Honest :
      (message : Text) (t : Trace)
      → Honest
          ((lifecycle (name w env) (removing w env)
              >> reply w env (failed_with (name w env) (removing w env) message))
            t).1
  unfolding ◌>>=◌ lifecycle
  told-Honest message t =
      failed-Honest (removing w env) message (logged (name w env) (removing w env) ∷ t)

  VolumeGone-later : (e : Event) (t : Trace) → VolumeGone t → VolumeGone (e ∷ t)
  VolumeGone-later e t (inl h) = inl h
  VolumeGone-later e t (inr h) = inr (inr h)

  -- The trace of a reply that ends a remove.
  remove_reply-Honest :
      (gone : Bool) (t : Trace) → Gone t → VolumeGone t → Honest (remove_reply w env gone t).1
  unfolding remove_reply ◌>>=◌ lifecycle reply send_db_reply
  remove_reply-Honest gone t g v h = (
    Gone-later _ _ (Gone-later _ t g),
    VolumeGone-later
        (replied db_status (
          build_db_reply_payload env (
            succeeded (name w env) (removing w env)
              (field (codes "volume_removed") (bool gone) end))))
        (logged (name w env) (removing w env) ∷ t)
        (VolumeGone-later (logged (name w env) (removing w env)) t v),
  )

  purged-Honest :
      (o : Option Text) (t : Trace)
      → Gone t
      → (o ≡ none → VolumeGone t)
      → Honest (purged w env o t).1
  unfolding purged
  purged-Honest none t g v = remove_reply-Honest true t g (v refl)
  purged-Honest (some e) t g v = told-Honest _ t

  if-Honest :
      (b : Bool) (m n : M (Unit {0})) (t : Trace)
      → (b ≡ true → Honest (m t).1)
      → (b ≡ false → Honest (n t).1)
      → Honest ((if b then m else n) t).1
  if-Honest true m n t h k = h refl
  if-Honest false m n t h k = k refl

  purge-Honest : (t : Trace) → Gone t → Honest (purge w env t).1
  unfolding purge ◌>>=◌ lifecycle call
  purge-Honest t g =
      let before : Trace = logged (name w env) (removing w env) ∷ t in
      let c : Call = remove_volume (volume w env) in
      if-Honest (not (remove_asked w env)) _ _ t
        (λ kept. remove_reply-Honest false t g (inl (not-true (remove_asked w env) kept)))
        (λ asked.
          purged-Honest (w.answer before c) (called c (w.answer before c) ∷ before)
            (Gone-later _ before (Gone-later _ t g)) (λ e. inr (inl (ap (called c) e))))

  remove_answer-Honest :
      (o : Option Text) (t : Trace) → (o ≡ none → Gone t) → Honest (remove_answer w env o t).1
  unfolding remove_answer
  remove_answer-Honest none t g = purge-Honest t (g refl)
  remove_answer-Honest (some e) t g = told-Honest e t

  remove_found-Honest :
      (l : Lookup) (t : Trace)
      → Happened (looked (name w env) l) t
      → Honest (remove_found w env l t).1
  unfolding remove_found ◌>>=◌ lifecycle call
  remove_found-Honest (unknown e) t h = told-Honest (lookup_failed e) t
  remove_found-Honest absent t h =
      purge-Honest (logged (name w env) (removing w env) ∷ t) (was_absent (inr h))
  remove_found-Honest (found id) t h =
      remove_answer-Honest _ _
        (λ e. was_removed id (inr (inr (inr (inr h)))) (inl (ap (called (remove_container id)) e)))

  removing_begun-Honest :
      (cancelled : Bool) (t : Trace) → Honest (removing_begun w env cancelled t).1
  unfolding removing_begun ◌>>=◌ lifecycle find_container
  removing_begun-Honest cancelled t = remove_found-Honest _ _ (inl refl)

  bad_name-Honest : (t : Trace) → Honest (reply w env (bad_name (removing w env)) t).1
  unfolding reply send_db_reply says_success bad_name get text_eq as_string
  bad_name-Honest t h = absurd (cc (h, ap as_string (status-build env (bad_name (removing w env)))))

  db_remove-Honest_from : (cancelled : Bool) (t : Trace) → Honest (db_remove w env cancelled t).1
  unfolding db_remove
  db_remove-Honest_from cancelled t =
      if-Honest (is_bad_name (name w env)) _ _ t (λ _. bad_name-Honest t)
        (λ _.
          if-Honest (remove_asked w env && is_bad_name (volume w env)) _ _ t
            (λ _. failed-Honest (removing w env) _ t) (λ _. removing_begun-Honest cancelled t))

  -- A db_remove that reports success tells the truth, whatever the calls answer: on the way it found
  -- no container of the name, or found one and removed it; and where the payload asks for the volume
  -- to go, it removed the volume of the payload.
  pub db_remove-Honest :
      (cancelled : Bool)
      → says_success (db_remove w env cancelled []).1 ≡ true
      → Gone (db_remove w env cancelled []).1 × VolumeGone (db_remove w env cancelled []).1
  db_remove-Honest cancelled = db_remove-Honest_from cancelled []
