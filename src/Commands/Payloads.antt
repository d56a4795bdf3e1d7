-- ===== src/Commands/Payloads.antt =====
-- What buildDbReplyPayload of main.go does to the phase and the status of a reply.
use lattice_runner.Base.{
  ◌≡◌, refl, ap, ◌∙◌, true, false, Option, none, some, Text, codes, text_eq, if◌then◌else◌, is_nil,
  Bool-cases, Option-cases, inl, inr,
}
use lattice_runner.Commands.{
  Json, str, Fields, get, put_new, phase_of, echoed, Envelope, build_db_reply_payload,
}

get-put_new :
    (k j : Text) (v : Option Json) (p : Fields)
    → text_eq j k ≡ false
    → get k (put_new j v p) ≡ get k p
unfolding put_new get
get-put_new k j none p h = refl
get-put_new k j (some v) p h = elim (Option-cases (get j p)) [
  | inl e ↦ rw (e, h) refl
  | inr (u, e) ↦ rw e refl
]

get-put_new-none :
    (k : Text) (v : Json) (p : Fields)
    → get k p ≡ none
    → text_eq k k ≡ true
    → get k (put_new k (some v) p) ≡ some v
unfolding put_new get
get-put_new-none k v p h r = rw (h, r) refl

-- The fields that echoing leaves alone.
get-echoed :
    (k : Text) (command p : Fields)
    → text_eq (codes "idempotency_key") k ≡ false
    → text_eq (codes "request_id") k ≡ false
    → text_eq (codes "database_instance_id") k ≡ false
    → get k (echoed command p) ≡ get k p
unfolding echoed
get-echoed k command p a b c =
    get-put_new k (codes "idempotency_key") _ _ a
    ∙ get-put_new k (codes "request_id") _ _ b
    ∙ get-put_new k (codes "database_instance_id") _ p c

abbrev pub phase_key : Text
phase_key = codes "phase"

abbrev pub status_key : Text
status_key = codes "status"

-- The payload before its phase is set.
before_phase : Envelope → Fields → Fields
before_phase env p =
    let e : Fields = echoed env.payload p in
    let i : Fields = put_new (codes "database_instance_id") (get (codes "instance_id") e) e in
    if is_nil env.type then i else put_new (codes "action") (some (str env.type)) i

get-before_phase :
    (k : Text) (env : Envelope) (p : Fields)
    → text_eq (codes "idempotency_key") k ≡ false
    → text_eq (codes "request_id") k ≡ false
    → text_eq (codes "database_instance_id") k ≡ false
    → text_eq (codes "action") k ≡ false
    → get k (before_phase env p) ≡ get k p
unfolding before_phase
get-before_phase k env p a b c d =
    let e : Fields = echoed env.payload p in
    let i : Fields = put_new (codes "database_instance_id") (get (codes "instance_id") e) e in
    let same : get k i ≡ get k p =
      get-put_new k (codes "database_instance_id") (get (codes "instance_id") e) e c
      ∙ get-echoed k env.payload p a b c in
    elim (Bool-cases (is_nil env.type)) [
      | inl h ↦ rw h same
      | inr h ↦ rw h (get-put_new k (codes "action") (some (str env.type)) i d ∙ same)
    ]

-- Every reply has a phase: its own, or the one that its status stands for.
pub phase-build :
    (env : Envelope) (p : Fields)
    → get phase_key p ≡ none
    → get phase_key (build_db_reply_payload env p) ≡ some (str (phase_of (get status_key p)))
unfolding build_db_reply_payload before_phase text_eq
phase-build env p h =
    let status : get status_key (before_phase env p) ≡ get status_key p =
      get-before_phase status_key env p refl refl refl refl in
    let empty : get phase_key (before_phase env p) ≡ none =
      get-before_phase phase_key env p refl refl refl refl ∙ h in
    get-put_new-none phase_key (str (phase_of (get status_key (before_phase env p))))
      (before_phase env p) empty refl
    ∙ ap (λ s. some (str (phase_of s))) status

given_there :
    (k : Text) (v w : Json) (p : Fields) → get k p ≡ some v → get k (put_new k (some w) p) ≡ some v
unfolding put_new
given_there k v w p h = rw h h

pub phase-build_given :
    (env : Envelope) (p : Fields) (v : Json)
    → get phase_key p ≡ some v
    → get phase_key (build_db_reply_payload env p) ≡ some v
unfolding build_db_reply_payload before_phase text_eq put_new
phase-build_given env p v h =
    let there : get phase_key (before_phase env p) ≡ some v =
      get-before_phase phase_key env p refl refl refl refl ∙ h in
    given_there phase_key v (str (phase_of (get status_key (before_phase env p))))
      (before_phase env p) there

-- A reply keeps the status that it is given.
pub status-build :
    (env : Envelope) (p : Fields) → get status_key (build_db_reply_payload env p) ≡ get status_key p
unfolding build_db_reply_payload before_phase text_eq
status-build env p =
    get-put_new status_key phase_key _ (before_phase env p) refl
    ∙ get-before_phase status_key env p refl refl refl refl
