-- ===== src/DbOps.antt =====
-- db_inflight.go: creates and removes of managed databases, one at a time for each container name,
-- where a remove cancels the create that is under way. A step is what a goroutine does between two
-- points at which another may come in.
mod Counts
mod Moves
mod Enter
mod Leave
mod Invariant
mod Exclusive
mod Cancel
mod Tests
use lattice_runner.Base.{
  ℕ, zero, suc, ◌+◌, ◌-◌, Bool, true, false, ◌≡◌, ◌==◌, Option, none, some, List, [], ◌∷◌, ◌++◌,
  Text, text_eq, if◌then◌else◌,
}

-- dbNameOp. `cancel` is the id of the user whose context the stored function cancels.
pub record DbNameOp : Type 0 where
  pub locked : Bool
  pub cancel : Option ℕ
  pub refs : ℕ

-- dbOps, with the objects that its pointers name. `next` is the next object that is made.
pub record DbOps : Type 0 where
  pub table : List (Text × ℕ)
  pub store : ℕ → DbNameOp
  pub next : ℕ

pub data Kind : Type 0 where
  create : Kind
  remove : Kind

-- How far a call of beginDbCreate or beginDbRemove has come, and the finish that it returns.
pub data Stage : Type 0 where
  entered : Stage
  signalled : Stage
  locked_in : Stage
  armed : Stage
  disarmed : Stage
  unlocked : Stage

pub record User : Type 0 where
  pub id : ℕ
  pub name : Text
  pub op : ℕ
  pub kind : Kind
  pub stage : Stage

-- `cancelled` are the users whose contexts have been cancelled, `ids` the next user's id.
pub record State : Type 0 where
  pub ops : DbOps
  pub users : List User
  pub ids : ℕ
  pub cancelled : List ℕ

pub lookup : Text → List (Text × ℕ) → Option ℕ
lookup n [] = none
lookup n ((m, i) ∷ t) = if text_eq m n then some i else lookup n t

pub delete_name : Text → List (Text × ℕ) → List (Text × ℕ)
delete_name n [] = []
delete_name n ((m, i) ∷ t) =
    let rest = delete_name n t in if text_eq m n then rest else (m, i) ∷ rest

pub put : ℕ → DbNameOp → (ℕ → DbNameOp) → ℕ → DbNameOp
put i o store j = if j == i then o else store j

-- The table afterwards, and the object.
pub op_at : Text → Option ℕ → DbOps → DbOps × ℕ
op_at n none o = (
  record {
    table = (n, o.next) ∷ o.table;
    store = put o.next (record { locked = false; cancel = none; refs = 1 }) o.store;
    next = suc o.next;
  },
  o.next,
)
op_at n (some i) o =
    let p : DbNameOp = o.store i in
    (record o { store = put i (record p { refs = suc p.refs }) o.store }, i)

pub db_op_for : Text → DbOps → DbOps × ℕ
unfolding op_at
db_op_for n o = op_at n (lookup n o.table) o

-- A count that was 1 is 0 afterwards.
pub release_db_op : Text → ℕ → DbOps → DbOps
release_db_op n i o =
    let p : DbNameOp = o.store i in
    record o {
      store = put i (record p { refs = p.refs - 1 }) o.store;
      table = if p.refs == 1 then delete_name n o.table else o.table;
    }

-- A goroutine calls beginDbCreate or beginDbRemove, up to the return of dbOpFor.
pub enter : Kind → Text → State → State
enter k n s =
    let found : DbOps × ℕ = db_op_for n s.ops in
    record s {
      ops = found.0;
      users = record { id = s.ids; name = n; op = found.1; kind = k; stage = entered } ∷ s.users;
      ids = suc s.ids;
    }

abbrev pub moved : Stage → User → User
moved stage u = record u { stage = stage }

-- A write to the object that a user has, with the user's next stage.
pub write_op : (DbNameOp → DbNameOp) → Stage → List User → User → List User → State → State
write_op f stage front u back s = record s {
  ops = record s.ops { store = put u.op (f (s.ops.store u.op)) s.ops.store };
  users = front ++ moved stage u ∷ back;
}

-- op.cancel() where there is one.
mark : Option ℕ → List ℕ → List ℕ
mark none l = l
mark (some i) l = i ∷ l

-- The first part of beginDbRemove.
pub signal : List User → User → List User → State → State
unfolding mark
signal front u back s = record s {
  users = front ++ moved signalled u ∷ back;
  cancelled = mark (s.ops.store u.op).cancel s.cancelled;
}

pub lock : List User → User → List User → State → State
lock = write_op (λ p. record p { locked = true }) locked_in

-- beginDbCreate stores the function that cancels its context.
pub arm : List User → User → List User → State → State
arm front u = write_op (λ p. record p { cancel = some u.id }) armed front u

-- The finish of a create takes that function away and cancels its context itself.
pub disarm : List User → User → List User → State → State
disarm front u back s =
    let t : State = write_op (λ p. record p { cancel = none }) disarmed front u back s in
    record t { cancelled = u.id ∷ s.cancelled }

pub unlock : List User → User → List User → State → State
unlock = write_op (λ p. record p { locked = false }) unlocked

-- The finish ends with releaseDbOp.
pub leave : List User → User → List User → State → State
leave front u back s = record s { ops = release_db_op u.name u.op s.ops; users = front ++ back }

-- Who may lock, and who may unlock.
abbrev pub before_lock : Kind → Stage
before_lock create = entered
before_lock remove = signalled

abbrev pub before_unlock : Kind → Stage
before_unlock create = disarmed
before_unlock remove = locked_in

-- A goroutine of any kind at any place of the list of users takes its next step.
pub data Step : State → State → Type 0 where
  enters : (k : Kind) (n : Text) (s : State) → Step s (enter k n s)
  signals :
      (front : List User) (u : User) (back : List User) (s : State)
      → s.users ≡ front ++ u ∷ back
      → u.kind ≡ remove
      → u.stage ≡ entered
      → Step s (signal front u back s)
  locks :
      (front : List User) (u : User) (back : List User) (s : State)
      → s.users ≡ front ++ u ∷ back
      → u.stage ≡ before_lock u.kind
      → (s.ops.store u.op).locked ≡ false
      → Step s (lock front u back s)
  arms :
      (front : List User) (u : User) (back : List User) (s : State)
      → s.users ≡ front ++ u ∷ back
      → u.kind ≡ create
      → u.stage ≡ locked_in
      → Step s (arm front u back s)
  disarms :
      (front : List User) (u : User) (back : List User) (s : State)
      → s.users ≡ front ++ u ∷ back
      → u.stage ≡ armed
      → Step s (disarm front u back s)
  unlocks :
      (front : List User) (u : User) (back : List User) (s : State)
      → s.users ≡ front ++ u ∷ back
      → u.stage ≡ before_unlock u.kind
      → Step s (unlock front u back s)
  leaves :
      (front : List User) (u : User) (back : List User) (s : State)
      → s.users ≡ front ++ u ∷ back
      → u.stage ≡ unlocked
      → Step s (leave front u back s)

pub initial : State
initial = record {
  ops = record {
    table = [];
    store = λ i. record { locked = false; cancel = none; refs = 0 };
    next = 0;
  };
  users = [];
  ids = 0;
  cancelled = [];
}

pub data Reached : State → Type 0 where
  start : Reached initial
  then_step : {s t : State} → Reached s → Step s t → Reached t
