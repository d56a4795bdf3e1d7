-- ===== src/Commands/World.antt =====
-- What the commands of main.go on containers and databases call, with what each call was answered, and the replies. An
-- answer is a function of all that happened before.
use lattice_runner.Base.{ℕ, Bool, Option, List, ◌∷◌, Text, ℤ}
use lattice_runner.Commands.{Json, Fields, Envelope, build_db_reply_payload}

-- A create of docker/database.go; its specification is kept as it is given, and the limit on the
-- CPU, which may be a fraction, as it stands in the payload.
pub record DatabaseSpec : Type 0 where
  pub instance_id : ℤ
  pub container_name : Text
  pub volume_name : Text
  pub engine : Text
  pub engine_version : Text
  pub port : ℤ
  pub root_password : Text
  pub database_name : Text
  pub username : Text
  pub password : Text
  pub cpu_limit : Option Json
  pub memory_limit : ℤ
  pub adopt_volume : Bool
  pub binlog_retention_seconds : ℤ

-- Who asks for a dump or a restore: engine, database, user, password.
pub record Login : Type 0 where
  pub engine : Text
  pub database : Text
  pub username : Text
  pub password : Text

-- The calls that only fail or succeed. A destination is named by its type and its configuration.
pub data Call : Type 0 where
  start_container : ℕ → Call
  stop_container : ℕ → ℕ → Call
  restart_container : ℕ → ℕ → Call
  remove_container : ℕ → Call
  remove_volume : Text → Call
  probe_port : ℤ → Call
  new_destination : Text → Option Fields → Call
  make_temp_dir : Call
  download : Text → Call
  open_file : Call
  gunzip : Call
  restore : ℕ → Login → Call
  delete_file : Text → Call
  kill_container : ℕ → Call
  pause_container : ℕ → Call
  unpause_container : ℕ → Call

-- The calls that answer a size.
pub data Transfer : Type 0 where
  stream_snapshot : ℕ → Login → Text → Transfer
  upload : Text → Transfer

pub data Lookup : Type 0 where
  unknown : Text → Lookup
  absent : Lookup
  found : ℕ → Lookup

-- What CreateDatabaseContainer answers: an error, or the id.
pub data Created : Type 0 where
  not_created : Text → Created
  created : Text → Created

pub data Sized : Type 0 where
  failed : Text → Sized
  bytes : ℕ → Sized

pub data Event : Type 0 where
  called : Call → Option Text → Event
  looked : Text → Lookup → Event
  made : DatabaseSpec → Created → Event
  moved : Transfer → Sized → Event
  logged : Text → Text → Event
  replied : Text → Fields → Event
  locked : Text → Event
  refused : Text → Event
  gave_up : Text → Event
  unlocked : Text → Event

abbrev pub Trace : Type 0
Trace = List Event

-- The other side of every call. A call that answers none has succeeded. `create_cancelled` says
-- whether the context of the create is cancelled and that of the command is not; `try_lock` whether
-- the mutex of a name can be taken at once; `waited` is the time since the wait for it began, in
-- milliseconds, when a tick of the ticker is handled whose number is given.
pub record World : Type 0 where
  pub answer : Trace → Call → Option Text
  pub lookup : Trace → Text → Lookup
  pub create : Trace → DatabaseSpec → Created
  pub transfer : Trace → Transfer → Sized
  pub create_cancelled : Trace → Bool
  pub try_lock : Trace → Text → Bool
  pub waited : Trace → ℕ → ℕ

abbrev pub M : Type 0 → Type 0
M A = Trace → A × Trace

infixl 5 ◌>>=◌ ◌>>◌
unfoldable pub ◌>>=◌ : {A B : Type 0} → M A → (A → M B) → M B
◌>>=◌ m f t = f (m t).0 (m t).1

abbrev pub ◌>>◌ : {B : Type 0} → M (Unit {0}) → M B → M B
m >> k = m >>= λ _. k

unfoldable pub call : World → Call → M (Option Text)
call w c t = (w.answer t c, called c (w.answer t c) ∷ t)

unfoldable pub find_container : World → Text → M Lookup
find_container w name t = (w.lookup t name, looked name (w.lookup t name) ∷ t)

unfoldable pub create_database : World → DatabaseSpec → M Created
create_database w spec t = (w.create t spec, made spec (w.create t spec) ∷ t)

unfoldable pub transfer : World → Transfer → M Sized
transfer w c t = (w.transfer t c, moved c (w.transfer t c) ∷ t)

unfoldable pub is_create_cancelled : World → M Bool
is_create_cancelled w t = (w.create_cancelled t, t)

-- sendLifecycleLog and sendLifecycleWarn: the container and the name of the action.
unfoldable pub lifecycle : Text → Text → M (Unit {0})
lifecycle name action t = (tt, logged name action ∷ t)

unfoldable pub send_db_reply : Envelope → Text → Fields → M (Unit {0})
send_db_reply env msg_type p t = (tt, replied msg_type (build_db_reply_payload env p) ∷ t)

-- wsSend, without the stamp of the command's ids on the payload.
unfoldable pub ws_send : Text → Fields → M (Unit {0})
ws_send msg_type p t = (tt, replied msg_type p ∷ t)
