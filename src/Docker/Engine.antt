-- ===== src/Docker/Engine.antt =====
-- The calls of the Docker SDK, the events that a run leaves, and the state monad over the history.
use lattice_runner.Base.{ℕ, Bool, Option, List, ◌∷◌, Text}

-- What InspectContainer reports: `health` is the status of the health check, if there is one.
pub record Info : Type 0 where
  pub is_running : Bool
  pub health : Option Text
  pub restart_count : ℕ
  pub image : Text

pub record Container : Type 0 where
  pub id : ℕ
  pub names : List Text
  pub labels : List (Text × Text)
  pub public_ports : List ℕ
  pub state : Text

pub record PortMapping : Type 0 where
  pub host_port : Text
  pub container_port : Text
  pub protocol : Text

pub record HealthCheck : Type 0 where
  pub test : List Text
  pub interval : Text
  pub timeout : Text
  pub retries : ℕ
  pub start_period : Text

pub record Ulimit : Type 0 where
  pub name : Text
  pub soft : Text
  pub hard : Text

-- The settings that the deploy code copies as they are; a float and a signed number are texts.
pub record Settings : Type 0 where
  pub env_vars : List (Text × Text)
  pub cpu_limit : Text
  pub memory_limit : ℕ
  pub command : List Text
  pub entrypoint : List Text
  pub networks : List Text
  pub health_check : Option HealthCheck
  pub ulimits : List Ulimit

pub record EngineSpec : Type 0 where
  pub name : Text
  pub image : Text
  pub tag : Text
  pub port_mappings : List PortMapping
  pub volumes : List (Text × Text)
  pub restart_policy : Text
  pub network_aliases : List Text
  pub stack_name : Text
  pub settings : Settings

-- One call with its answer; a Boolean answer is `true` where Go's error is nil.
pub data Event : Type 0 where
  pulled : Text → Bool → Event
  created : EngineSpec → Option ℕ → Event
  started stopped killed removed : ℕ → Bool → Event
  renamed : ℕ → Text → Bool → Event
  inspected : ℕ → Option Info → Event
  listed : Option (List Container) → Event
  network_made volume_made : Text → Text → Bool → Event
  slept : ℕ → Event
  reported : Text → Event
  logged : Text → Event

-- The newest event stands first.
abbrev pub Trace : Type 0
Trace = List Event

-- The engine, the clock and the random source: each answer may depend on the whole history. `clock`
-- is time.Now in nanoseconds, `done_wins` is the choice of a select between two channels that are
-- ready at once, `is_cancelled` says whether the context of the deployment has ended, and
-- `free_bytes` is what Statfs reports as available.
pub record Docker : Type 0 where
  pub pull : Trace → Text → Bool
  pub create : Trace → EngineSpec → Option ℕ
  pub start : Trace → ℕ → Bool
  pub stop : Trace → ℕ → Bool
  pub kill : Trace → ℕ → Bool
  pub remove : Trace → ℕ → Bool
  pub rename : Trace → ℕ → Text → Bool
  pub inspect : Trace → ℕ → Option Info
  pub list : Trace → Text → Option (List Container)
  pub make_network : Trace → Text → Text → Bool
  pub make_volume : Trace → Text → Text → Bool
  pub random_bytes : Trace → Text
  pub clock : Trace → ℕ
  pub done_wins : Trace → Bool
  pub is_cancelled : Trace → Bool
  pub free_bytes : Trace → Option ℕ

abbrev pub M : Type 0 → Type 0
M A = Trace → A × Trace

infixl 5 ◌>>=◌ ◌>>◌
unfoldable pub ◌>>=◌ : {A B : Type 0} → M A → (A → M B) → M B
◌>>=◌ m f t = let (a, u) = m t in f a u

abbrev pub ◌>>◌ : {A B : Type 0} → M A → M B → M B
m >> k = m >>= λ _. k

unfoldable pub pure : {A : Type 0} → A → M A
pure a t = (a, t)

-- Waits in milliseconds, progress messages and lifecycle events.
unfoldable pub sleep : ℕ → M (Unit {0})
sleep ms t = (tt, slept ms ∷ t)

unfoldable pub report : Text → M (Unit {0})
report status t = (tt, reported status ∷ t)

unfoldable pub log : Text → M (Unit {0})
log event t = (tt, logged event ∷ t)

module _ (d : Docker) where
  unfoldable pub now : M ℕ
  now t = (d.clock t, t)

  unfoldable pub cancelled : M Bool
  cancelled t = (d.is_cancelled t, t)

  unfoldable pub pull_image : Text → M Bool
  pull_image image t = let b = d.pull t image in (b, pulled image b ∷ t)

  unfoldable pub create_and_start : EngineSpec → M (Option ℕ)
  create_and_start spec t = let a = d.create t spec in (a, created spec a ∷ t)

  unfoldable pub start_container : ℕ → M Bool
  start_container id t = let b = d.start t id in (b, started id b ∷ t)

  unfoldable pub stop_container : ℕ → M Bool
  stop_container id t = let b = d.stop t id in (b, stopped id b ∷ t)

  unfoldable pub kill_container : ℕ → M Bool
  kill_container id t = let b = d.kill t id in (b, killed id b ∷ t)

  unfoldable pub remove_container : ℕ → M Bool
  remove_container id t = let b = d.remove t id in (b, removed id b ∷ t)

  unfoldable pub rename_container : ℕ → Text → M Bool
  rename_container id name t = let b = d.rename t id name in (b, renamed id name b ∷ t)

  unfoldable pub inspect_container : ℕ → M (Option Info)
  inspect_container id t = let a = d.inspect t id in (a, inspected id a ∷ t)

  unfoldable pub list_containers : Text → M (Option (List Container))
  list_containers filter t = let a = d.list t filter in (a, listed a ∷ t)

  unfoldable pub create_network : Text → Text → M Bool
  create_network name driver t =
      let b = d.make_network t name driver in (b, network_made name driver b ∷ t)

  unfoldable pub create_volume : Text → Text → M Bool
  create_volume name driver t =
      let b = d.make_volume t name driver in (b, volume_made name driver b ∷ t)
