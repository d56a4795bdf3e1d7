-- ===== src/Context.antt =====
-- command_context.go: the ids under which a command is logged and its replies are sent.
mod Jobs
mod Tests
use lattice_runner.Base.{
  ℕ, zero, suc, ◌-◌, Bool, true, false, ◌&&◌, ◌||◌, ◌==◌, Option, none, some, List, [], ◌∷◌, ◌++◌,
  Text, codes, text_eq, if◌then◌else◌, is_nil, length, decimal, ℤ, pos, negsuc, contains,
}
use lattice_runner.Scheduler.Cron.{atoi}
use lattice_runner.Commands.{Fields, Envelope, payload_string}

-- The ids of an envelope beside its payload.
pub record Ids : Type 0 where
  pub command_id : Text
  pub request_id : Text
  pub trace_id : Text

-- ValidCorrelationID and NewJobID of go-monitor; the job id is the one of this call.
pub record Monitor : Type 0 where
  pub valid_correlation_id : Text → Bool
  pub new_job_id : Text

-- What a context of a command carries.
pub record CommandContext : Type 0 where
  pub command : Option Text
  pub request : Text
  pub trace : Text
  pub job : Text

pub data JobKind : Type 0 where
  deployment snapshot restoration database : JobKind

pub tag : JobKind → Text
tag deployment = codes "de"
tag snapshot = codes "ba"
tag restoration = codes "bd"
tag database = codes "db"

zeros : ℕ → Text
zeros zero = []
zeros (suc n) = b'0' ∷ zeros n

-- %014d of a number that is not negative.
padded : ℕ → Text
unfolding zeros
padded n = zeros (14 - length (decimal n)) ++ decimal n

sixteen : Text → Text
sixteen id = if length id == 16 then id else []

of_number : JobKind → Option ℤ → Text
unfolding sixteen padded tag
of_number kind (some (pos (suc n))) = sixteen (tag kind ++ padded (suc n))
of_number kind _ = []

-- strconv.ParseInt in base 10 and of 64 bits reads what Atoi reads.
pub unit_job_id : JobKind → Text → Text
unfolding of_number
unit_job_id kind raw = of_number kind (atoi raw)

or_else : Text → Text → Text
or_else a b = if is_nil a then b else a

module _ (m : Monitor) where
  pub first_correlation_id : List Text → Text
  first_correlation_id [] = []
  first_correlation_id (id ∷ ids) =
      let rest = first_correlation_id ids in
      if is_nil id then rest else if m.valid_correlation_id id then id else rest

  -- The unit of work that a command of a type acts on.
  unit_of : Envelope → Text
  unit_of env =
      if contains (codes "deploy" ∷ codes "deployment_ping" ∷ []) env.type
      then unit_job_id deployment (payload_string (codes "deployment_id" ∷ []) env.payload)
      else if contains
          (codes "db_snapshot" ∷ codes "db_mirror_snapshot" ∷ codes "db_delete_snapshot_file" ∷ [])
          env.type
      then unit_job_id snapshot (payload_string (codes "snapshot_id" ∷ []) env.payload)
      else if text_eq env.type (codes "db_restore")
      then unit_job_id restoration
          (payload_string (codes "restore_id" ∷ codes "snapshot_id" ∷ []) env.payload)
      else []

  pub command_job_id : Envelope → Ids → Text
  unfolding unit_of or_else
  command_job_id env ids = or_else (unit_of env) (
      or_else
        (unit_job_id database
          (payload_string (codes "database_instance_id" ∷ codes "instance_id" ∷ []) env.payload))
        (or_else (first_correlation_id (ids.command_id ∷ [])) m.new_job_id))

  pub command_context : Envelope → Ids → CommandContext
  command_context env ids = record {
    command = some ids.command_id;
    request = first_correlation_id (ids.request_id ∷ ids.command_id ∷ []);
    trace = first_correlation_id (ids.trace_id ∷ []);
    job = command_job_id env ids;
  }

  -- A context of the runner's own loops.
  pub cycle_context : CommandContext
  cycle_context = record { command = none; request = []; trace = []; job = m.new_job_id }

  pub dispatch_context : Envelope → Ids → CommandContext
  unfolding command_context cycle_context
  dispatch_context env ids =
      if text_eq env.type (codes "connected") then cycle_context else command_context env ids

stamped : Option Text → CommandContext → Ids → Ids
unfolding or_else
stamped none c msg = msg
stamped (some id) c msg = record {
  command_id = or_else msg.command_id id;
  request_id = or_else msg.request_id c.request;
  trace_id = or_else msg.trace_id c.trace;
}

-- What a reply carries that is sent under a context.
pub stamp_ids : CommandContext → Ids → Ids
unfolding stamped
stamp_ids c msg = stamped c.command c msg
