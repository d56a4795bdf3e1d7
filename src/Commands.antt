-- ===== src/Commands.antt =====
-- The payloads of commands and replies in main.go. A number is a float64 by what int64 makes of it.
pub mod World
pub mod Locks
pub mod Databases
pub mod Containers
pub mod Snapshots
pub mod Payloads
pub mod Answers
mod Tests
use lattice_runner.Base.{
  is_some, ℕ, zero, suc, ◌*◌, ◌<◌, Bool, true, false, not, ◌&&◌, ◌||◌, ltb, Option, none, some,
  List, [], ◌∷◌, ◌++◌, Text, codes, text_eq, if◌then◌else◌, is_nil, decimal, ℤ, pos, negsuc, suc,
}

mutual
  pub data Json : Type 0 where
    null : Json
    bool : Bool → Json
    str : Text → Json
    number : ℤ → Json
    integer : ℤ → Json
    object : Fields → Json

  pub data Fields : Type 0 where
    end : Fields
    field : Text → Json → Fields → Fields

unfoldable pub get : Text → Fields → Option Json
get k end = none
get k (field j v m) = if text_eq j k then some v else get k m

-- strconv.FormatInt in base 10.
unfoldable pub format_int : ℤ → Text
format_int (pos n) = decimal n
format_int (negsuc n) = b'-' ∷ decimal (suc n)

string_of : Option Json → Text
unfolding format_int
string_of (some (str s)) = s
string_of (some (number n)) = format_int n
string_of (some (integer n)) = format_int n
string_of _ = []

unfoldable pub payload_string : List Text → Fields → Text
unfolding string_of
payload_string [] p = []
payload_string (k ∷ ks) p =
    let s = string_of (get k p) in if is_nil s then payload_string ks p else s

-- The type assertions of a value, where a failed one gives the zero value.
unfoldable pub as_string : Option Json → Text
as_string (some (str s)) = s
as_string _ = []

unfoldable pub as_bool : Option Json → Bool
as_bool (some (bool b)) = b
as_bool _ = false

unfoldable pub as_number : Option Json → ℤ
as_number (some (number n)) = n
as_number _ = pos 0

-- A map, or nil.
unfoldable pub as_object : Option Json → Option Fields
as_object (some (object m)) = some m
as_object _ = none

unfoldable pub payload_nested : Text → Text → Fields → Option Json
payload_nested parent child p = elim (as_object (get parent p)) [
  | none ↦ none
  | some m ↦ get child m
]

unfoldable pub backup_destination_from : Fields → Text × Option Fields
backup_destination_from p =
    let flat : Text = payload_string (codes "dest_type" ∷ []) p in
    let config : Option Fields = as_object (get (codes "dest_config") p) in
    (
      if is_nil flat
          then as_string (payload_nested (codes "backup_destination") (codes "type") p)
          else flat,
      elim config [
        | none ↦ as_object (payload_nested (codes "backup_destination") (codes "config") p)
        | some m ↦ some m
      ],
    )

pub record Envelope : Type 0 where
  pub type : Text
  pub payload : Fields

-- payload[key] = v where the key is not there yet.
unfoldable pub put_new : Text → Option Json → Fields → Fields
put_new k none p = p
put_new k (some v) p = if is_some (get k p) then p else field k v p

unfoldable pub phase_of : Option Json → Text
phase_of (some (str s)) =
    if text_eq s (codes "success") || text_eq s (codes "completed")
    then codes "completed"
    else if text_eq s (codes "failed") || text_eq s (codes "error")
    then codes "failed"
    else codes "ack"
phase_of _ = codes "ack"

-- The fields of the command that a reply echoes.
unfoldable pub echoed : Fields → Fields → Fields
echoed command p = put_new (codes "idempotency_key") (get (codes "idempotency_key") command) (
    put_new (codes "request_id") (get (codes "request_id") command)
      (put_new (codes "database_instance_id") (get (codes "database_instance_id") command) p))

unfoldable pub build_db_reply_payload : Envelope → Fields → Fields
build_db_reply_payload env p =
    let e : Fields = echoed env.payload p in
    let i : Fields = put_new (codes "database_instance_id") (get (codes "instance_id") e) e in
    let a : Fields =
      if is_nil env.type then i else put_new (codes "action") (some (str env.type)) i in
    put_new (codes "phase") (some (str (phase_of (get (codes "status") a)))) a

-- Docker's minimum is 6 MB; anything smaller was meant as megabytes.
unfoldable pub normalise_memory_limit : ℤ → ℤ
normalise_memory_limit (pos n) = if ltb 0 n && ltb n 6_291_456 then pos (n * 1_048_576) else pos n
normalise_memory_limit (negsuc n) = negsuc n
