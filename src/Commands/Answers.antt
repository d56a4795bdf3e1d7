-- ===== src/Commands/Answers.antt =====
-- A command is answered by one reply that ends it, after any number that do not.
use lattice_runner.Base.{
  ◌≡◌, ◌⊎◌, ap, ◌∙◌, Bool, true, false, none, some, ◌∷◌, Text, codes, if◌then◌else◌, inl, inr,
}
use lattice_runner.Commands.{str, Fields, get, phase_of, Envelope, build_db_reply_payload}
use lattice_runner.Commands.Payloads.{phase_key, status_key, phase-build, phase-build_given}
use lattice_runner.Commands.World.{
  Call, Lookup, Transfer, DatabaseSpec, Event, looked, replied, Trace, World, M, ◌>>=◌, call,
  find_container, create_database, transfer, is_create_cancelled, lifecycle, send_db_reply,
}

-- What happens before the reply that ends a command: replies on the way are in the phase "ack".
abbrev pub IsOnTheWay : Event → Type 0
IsOnTheWay (replied msg_type p) = get phase_key p ≡ some (str (codes "ack"))
IsOnTheWay _ = Unit {0}

-- A reply that ends a command says that it is completed or that it has failed.
abbrev pub IsFinal : Fields → Type 0
IsFinal p =
    (get phase_key p ≡ some (str (codes "completed")))
    ⊎ (get phase_key p ≡ some (str (codes "failed")))

pub data Waits (t : Trace) : Trace → Type 0 where
  here : Waits t t
  next : {e : Event} {u : Trace} → IsOnTheWay e → Waits t u → Waits t (e ∷ u)

pub data Ends (ty : Text) (t : Trace) : Trace → Type 0 where
  ends : {u : Trace} (p : Fields) → Waits t u → IsFinal p → Ends ty t (replied ty p ∷ u)

-- An action that sends no reply that ends the command, and one that sends just one, as its last event.
pub data Quiet {A : Type 0} (m : M A) : Type 0 where
  quiet : ((t : Trace) → Waits t (m t).1) → Quiet m

pub data Answers (ty : Text) (m : M (Unit {0})) : Type 0 where
  answers : ((t : Trace) → Ends ty t (m t).1) → Answers ty m

pub answered : {ty : Text} {m : M (Unit {0})} → Answers ty m → (t : Trace) → Ends ty t (m t).1
answered (answers f) = f

Waits-then : {t u v : Trace} → Waits t u → Waits u v → Waits t v
Waits-then w here = w
Waits-then w (next p r) = next p (Waits-then w r)

Ends-then : {ty : Text} {t u v : Trace} → Waits t u → Ends ty u v → Ends ty t v
Ends-then w (ends p r f) = ends p (Waits-then w r) f

pub Answers-bind :
    {A : Type 0} {ty : Text} {m : M A} {f : A → M (Unit {0})}
    → Quiet m
    → ((a : A) → Answers ty (f a))
    → Answers ty (m >>= f)
unfolding ◌>>=◌
Answers-bind {m = m} (quiet h) k = answers (λ t. Ends-then (h t) (answered (k (m t).0) (m t).1))

pub Answers-if :
    {ty : Text} (b : Bool) {m n : M (Unit {0})}
    → Answers ty m
    → Answers ty n
    → Answers ty (if b then m else n)
Answers-if true h k = h
Answers-if false h k = k

pub Quiet-if : (b : Bool) {A : Type 0} {m n : M A} → Quiet m → Quiet n → Quiet (if b then m else n)
Quiet-if true h k = h
Quiet-if false h k = k

pub Quiet-call : (w : World) (c : Call) → Quiet (call w c)
unfolding call
Quiet-call w c = quiet (λ t. next tt here)

pub Quiet-find : (w : World) (name : Text) → Quiet (find_container w name)
unfolding find_container
Quiet-find w name = quiet (λ t. next tt here)

pub Quiet-create : (w : World) (spec : DatabaseSpec) → Quiet (create_database w spec)
unfolding create_database
Quiet-create w spec = quiet (λ t. next tt here)

pub Quiet-transfer : (w : World) (c : Transfer) → Quiet (transfer w c)
unfolding transfer
Quiet-transfer w c = quiet (λ t. next tt here)

pub Quiet-cancelled : (w : World) → Quiet (is_create_cancelled w)
unfolding is_create_cancelled
Quiet-cancelled w = quiet (λ t. here)

pub Quiet-lifecycle : (name action : Text) → Quiet (lifecycle name action)
unfolding lifecycle
Quiet-lifecycle name action = quiet (λ t. next tt here)

pub Quiet-none : {A : Type 0} (a : A) → Quiet (λ t. (a, t))
Quiet-none a = quiet (λ t. here)

-- Replies with no phase of their own, by their status.
pub Answers-completed :
    (env : Envelope) (ty : Text) (p : Fields)
    → get phase_key p ≡ none
    → phase_of (get status_key p) ≡ codes "completed"
    → Answers ty (send_db_reply env ty p)
unfolding send_db_reply
Answers-completed env ty p h k = answers (λ t.
    ends (build_db_reply_payload env p) here (inl (phase-build env p h ∙ ap (λ s. some (str s)) k)))

pub Answers-failed :
    (env : Envelope) (ty : Text) (p : Fields)
    → get phase_key p ≡ none
    → phase_of (get status_key p) ≡ codes "failed"
    → Answers ty (send_db_reply env ty p)
unfolding send_db_reply
Answers-failed env ty p h k = answers (λ t.
    ends (build_db_reply_payload env p) here (inr (phase-build env p h ∙ ap (λ s. some (str s)) k)))

pub Quiet-ack :
    (env : Envelope) (ty : Text) (p : Fields)
    → get phase_key p ≡ none
    → phase_of (get status_key p) ≡ codes "ack"
    → Quiet (send_db_reply env ty p)
unfolding send_db_reply
Quiet-ack env ty p h k = quiet (λ t. next (phase-build env p h ∙ ap (λ s. some (str s)) k) here)

pub Quiet-ack_given :
    (env : Envelope) (ty : Text) (p : Fields)
    → get phase_key p ≡ some (str (codes "ack"))
    → Quiet (send_db_reply env ty p)
unfolding send_db_reply
Quiet-ack_given env ty p h = quiet (λ t. next (phase-build_given env p _ h) here)

-- After a lookup, by what it answers.
pub Answers-find :
    {ty : Text} (w : World) (name : Text) (f : Lookup → M (Unit {0}))
    → ((t : Trace) → Answers ty (f (w.lookup t name)))
    → Answers ty (find_container w name >>= f)
unfolding ◌>>=◌ find_container
Answers-find w name f h =
    answers (λ t. Ends-then (next tt here) (answered (h t) (looked name (w.lookup t name) ∷ t)))
