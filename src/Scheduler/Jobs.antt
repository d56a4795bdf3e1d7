-- ===== src/Scheduler/Jobs.antt =====
-- The state of a Scheduler: its jobs, the guard on snapshots in flight, and the snapshots themselves.
pub mod Guard
pub mod Due
use lattice_runner.Base.{ℕ, Bool, true, false, ◌≡◌, ◌==◌, ◌||◌, List, [], ◌∷◌, Text, if◌then◌else◌}
use lattice_runner.Scheduler.Cron.{Time, cron_matches}

-- The values of the backup destination are kept as texts.
pub record Job : Type 0 where
  pub instance_id : ℕ
  pub container_name : Text
  pub engine : Text
  pub database_name : Text
  pub username : Text
  pub password : Text
  pub cron : Text
  pub retention_count : ℕ
  pub backup_dest : List (Text × Text)

-- `running` are the goroutines that checkAndFire started and that have not deleted their entry yet.
pub record Scheduler : Type 0 where
  pub jobs : List Job
  pub inflight : List ℕ
  pub running : List Job

unfoldable pub new : Scheduler
new = record { jobs = []; inflight = []; running = [] }

-- delete(s.jobs, id)
without : ℕ → List Job → List Job
without i [] = []
without i (j ∷ js) = let rest = without i js in if j.instance_id == i then rest else j ∷ rest

unfoldable pub update_schedule : Job → Scheduler → Scheduler
unfolding without
update_schedule job s = record s { jobs = job ∷ without job.instance_id s.jobs }

unfoldable pub remove_schedule : ℕ → Scheduler → Scheduler
unfolding without
remove_schedule i s = record s { jobs = without i s.jobs }

unfoldable pub has : ℕ → List ℕ → Bool
has i [] = false
has i (k ∷ ks) = k == i || has i ks

-- The jobs whose time it is.
unfoldable pub to_fire : Time → List Job → List Job
to_fire t [] = []
to_fire t (j ∷ js) = let rest = to_fire t js in if cron_matches j.cron t then j ∷ rest else rest

-- LoadOrStore, and the goroutine where nothing was stored before.
unfoldable pub fire : Job → Scheduler → Scheduler
fire j s =
    if has j.instance_id s.inflight
    then s
    else record s { inflight = j.instance_id ∷ s.inflight; running = j ∷ s.running }

fire_all : List Job → Scheduler → Scheduler
fire_all [] s = s
fire_all (j ∷ js) s = fire_all js (fire j s)

unfoldable pub check_and_fire : Time → Scheduler → Scheduler
unfolding fire_all
check_and_fire t s = fire_all (to_fire t s.jobs) s

delete : ℕ → List ℕ → List ℕ
delete i [] = []
delete i (k ∷ ks) = let rest = delete i ks in if k == i then rest else k ∷ rest

drop_first : ℕ → List Job → List Job
drop_first i [] = []
drop_first i (j ∷ js) = let rest = drop_first i js in if j.instance_id == i then js else j ∷ rest

-- A goroutine for the instance ends, by a return of onFire or by a panic, and deletes its entry.
unfoldable pub finish : ℕ → Scheduler → Scheduler
unfolding delete drop_first
finish i s = record s { inflight = delete i s.inflight; running = drop_first i s.running }

unfoldable pub ids : List Job → List ℕ
ids [] = []
ids (j ∷ js) = j.instance_id ∷ ids js

-- What may happen to a scheduler, in any order.
pub data Step : Scheduler → Scheduler → Type 0 where
  updated : (job : Job) (s : Scheduler) → Step s (update_schedule job s)
  removed : (i : ℕ) (s : Scheduler) → Step s (remove_schedule i s)
  ticked : (t : Time) (s : Scheduler) → Step s (check_and_fire t s)
  ended : (i : ℕ) (s : Scheduler) → has i (ids s.running) ≡ true → Step s (finish i s)

pub data Reached : Scheduler → Type 0 where
  start : Reached new
  then_step : {s u : Scheduler} → Reached s → Step s u → Reached u
