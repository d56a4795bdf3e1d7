-- ===== src/Docker/Runs.antt =====
-- How the history grows, and which calls an action may make.
use lattice_runner.Base.{ℕ, Bool, true, false, ◌∷◌, Text, if◌then◌else◌, All, Any, inr}
use lattice_runner.Docker.Engine.{
  EngineSpec, Event, created, pulled, inspected, listed, network_made, volume_made, slept, reported,
  started, stopped, killed, removed, renamed, logged, Trace, Docker, M, ◌>>=◌, pure, sleep, report,
  log, now, cancelled, pull_image, create_and_start, start_container, stop_container,
  kill_container, remove_container, rename_container, inspect_container, list_containers,
  create_network, create_volume,
}

-- The calls that change a container, each allowed for some containers. The other calls are free.
pub record Permit : Type 1 where
  pub may_create : EngineSpec → Type 0
  pub may_start : ℕ → Type 0
  pub may_stop : ℕ → Type 0
  pub may_remove : ℕ → Type 0
  pub may_rename : ℕ → Text → Type 0
  pub may_log : Text → Type 0

abbrev pub Obeys : Permit → Event → Type 0
Obeys p (created spec a) = p.may_create spec
Obeys p (started id b) = p.may_start id
Obeys p (stopped id b) = p.may_stop id
Obeys p (killed id b) = p.may_stop id
Obeys p (removed id b) = p.may_remove id
Obeys p (renamed id name b) = p.may_rename id name
Obeys p (logged event) = p.may_log event
Obeys p _ = Unit

-- `u` goes on from `t` by events that satisfy `P`.
pub data Ran (P : Event → Type 0) (t : Trace) : Trace → Type 0 where
  here : Ran P t t
  next : {u : Trace} {e : Event} → P e → Ran P t u → Ran P t (e ∷ u)

module _ {P : Event → Type 0} where
  pub Ran-trans : {t u v : Trace} → Ran P t u → Ran P u v → Ran P t v
  Ran-trans r here = r
  Ran-trans r (next p s) = next p (Ran-trans r s)

  -- What was seen stays seen.
  pub Any-Ran : (Q : Event → Type 0) {t u : Trace} → Ran P t u → Any Q t → Any Q u
  Any-Ran Q here h = h
  Any-Ran Q (next p r) h = inr (Any-Ran Q r h)

  pub All-Ran : {t u : Trace} → Ran P t u → All P t → All P u
  All-Ran here h = h
  All-Ran (next p r) h = (p, All-Ran r h)

pub Ran-map :
    {P Q : Event → Type 0} → ((e : Event) → P e → Q e) → {t u : Trace} → Ran P t u → Ran Q t u
Ran-map f here = here
Ran-map f (next {e = e} p r) = next (f e p) (Ran-map f r)

-- An action makes only calls that are allowed, whatever happened before it.
pub data Emits (p : Permit) {A : Type 0} (m : M A) : Type 0 where
  emits : ((t : Trace) → Ran (Obeys p) t (m t).1) → Emits p m

pub ran : {p : Permit} {A : Type 0} {m : M A} → Emits p m → (t : Trace) → Ran (Obeys p) t (m t).1
ran (emits f) = f

module _ {p : Permit} where
  pub Emits-bind :
      {A B : Type 0} {m : M A} {f : A → M B}
      → Emits p m
      → ((a : A) → Emits p (f a))
      → Emits p (m >>= f)
  unfolding ◌>>=◌
  Emits-bind {m} (emits h) k = emits (λ t. Ran-trans (h t) (ran (k (m t).0) (m t).1))

  pub Emits-pure : {A : Type 0} (a : A) → Emits p (pure a)
  unfolding pure
  Emits-pure a = emits (λ t. here)

  pub Emits-if :
      {A : Type 0} (b : Bool) {m n : M A} → Emits p m → Emits p n → Emits p (if b then m else n)
  Emits-if true h k = h
  Emits-if false h k = k

  pub Emits-sleep : (ms : ℕ) → Emits p (sleep ms)
  unfolding sleep
  Emits-sleep ms = emits (λ t. next tt here)

  pub Emits-report : (status : Text) → Emits p (report status)
  unfolding report
  Emits-report status = emits (λ t. next tt here)

  pub Emits-now : (d : Docker) → Emits p (now d)
  unfolding now
  Emits-now d = emits (λ t. here)

  pub Emits-cancelled : (d : Docker) → Emits p (cancelled d)
  unfolding cancelled
  Emits-cancelled d = emits (λ t. here)

  pub Emits-log : (event : Text) → p.may_log event → Emits p (log event)
  unfolding log
  Emits-log event h = emits (λ t. next h here)

  pub Emits-pull : (d : Docker) (image : Text) → Emits p (pull_image d image)
  unfolding pull_image
  Emits-pull d image = emits (λ t. next tt here)

  pub Emits-inspect : (d : Docker) (id : ℕ) → Emits p (inspect_container d id)
  unfolding inspect_container
  Emits-inspect d id = emits (λ t. next tt here)

  pub Emits-list : (d : Docker) (filter : Text) → Emits p (list_containers d filter)
  unfolding list_containers
  Emits-list d filter = emits (λ t. next tt here)

  pub Emits-network : (d : Docker) (name driver : Text) → Emits p (create_network d name driver)
  unfolding create_network
  Emits-network d name driver = emits (λ t. next tt here)

  pub Emits-volume : (d : Docker) (name driver : Text) → Emits p (create_volume d name driver)
  unfolding create_volume
  Emits-volume d name driver = emits (λ t. next tt here)

  pub Emits-create :
      (d : Docker) (spec : EngineSpec) → p.may_create spec → Emits p (create_and_start d spec)
  unfolding create_and_start
  Emits-create d spec h = emits (λ t. next h here)

  pub Emits-start : (d : Docker) (id : ℕ) → p.may_start id → Emits p (start_container d id)
  unfolding start_container
  Emits-start d id h = emits (λ t. next h here)

  pub Emits-stop : (d : Docker) (id : ℕ) → p.may_stop id → Emits p (stop_container d id)
  unfolding stop_container
  Emits-stop d id h = emits (λ t. next h here)

  pub Emits-kill : (d : Docker) (id : ℕ) → p.may_stop id → Emits p (kill_container d id)
  unfolding kill_container
  Emits-kill d id h = emits (λ t. next h here)

  pub Emits-remove : (d : Docker) (id : ℕ) → p.may_remove id → Emits p (remove_container d id)
  unfolding remove_container
  Emits-remove d id h = emits (λ t. next h here)

  pub Emits-rename :
      (d : Docker) (id : ℕ) (name : Text)
      → p.may_rename id name
      → Emits p (rename_container d id name)
  unfolding rename_container
  Emits-rename d id name h = emits (λ t. next h here)

-- Every value that an action returns satisfies `Q`.
abbrev pub Always : {A : Type 0} → (A → Type 0) → M A → Type 0
Always Q m = (t : Trace) → Q (m t).0

-- The same as `Emits-bind`, where the second action needs to know of the first one's value.
pub Emits-bind_of :
    {p : Permit} {A B : Type 0} (Q : A → Type 0) {m : M A} {f : A → M B}
    → Always Q m
    → Emits p m
    → ((a : A) → Q a → Emits p (f a))
    → Emits p (m >>= f)
unfolding ◌>>=◌
Emits-bind_of Q {m} q (emits h) k = emits (λ t. Ran-trans (h t) (ran (k (m t).0 (q t)) (m t).1))

pub ruleset free_calls = (
  Emits-bind, Emits-pure, Emits-if, Emits-sleep, Emits-report, Emits-pull, Emits-inspect,
  Emits-list, Emits-network, Emits-volume, Emits-now, Emits-cancelled,
)

-- An action that keeps to one permit keeps to every wider one.
pub Emits-widen :
    {p q : Permit} {A : Type 0} {m : M A}
    → ((e : Event) → Obeys p e → Obeys q e)
    → Emits p m
    → Emits q m
Emits-widen f (emits h) = emits (λ t. Ran-map f (h t))

-- Everything but a lifecycle event.
abbrev pub quiet : Permit
quiet = record {
  may_create = λ s. Unit;
  may_start = λ id. Unit;
  may_stop = λ id. Unit;
  may_remove = λ id. Unit;
  may_rename = λ id name. Unit;
  may_log = λ event. ⊥;
}

-- A permit without lifecycle events is narrower than `quiet`.
pub Obeys-quiet :
    (p : Permit) → ((event : Text) → p.may_log event → ⊥) → (e : Event) → Obeys p e → Obeys quiet e
Obeys-quiet p silent (logged event) h = silent event h
Obeys-quiet p silent (created s a) h = tt
Obeys-quiet p silent (started id b) h = tt
Obeys-quiet p silent (stopped id b) h = tt
Obeys-quiet p silent (killed id b) h = tt
Obeys-quiet p silent (removed id b) h = tt
Obeys-quiet p silent (renamed id name b) h = tt
Obeys-quiet p silent (pulled i b) h = tt
Obeys-quiet p silent (inspected id i) h = tt
Obeys-quiet p silent (listed cs) h = tt
Obeys-quiet p silent (network_made n d b) h = tt
Obeys-quiet p silent (volume_made n d b) h = tt
Obeys-quiet p silent (slept ms) h = tt
Obeys-quiet p silent (reported s) h = tt
