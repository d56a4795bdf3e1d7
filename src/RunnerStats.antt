-- ===== src/RunnerStats.antt =====
-- runner_stats.go: the samples of the drop counts, the tracker of the containers' health, and the
-- registry of an image.
mod Drops
mod Health
mod Tests
use lattice_runner.Base.{
  ℕ, suc, ◌-◌, Bool, true, false, not, ◌&&◌, ◌||◌, ltb, Option, none, some, List, [], ◌∷◌, Text,
  codes, text_eq, if◌then◌else◌, contains_any, contains,
}
use lattice_runner.Scheduler.Cron.{cut_first}

-- What runnerStatsCollector remembers: the drop total of the last sample.
pub record Collector : Type 0 where
  pub last_sdk_drops : ℕ

-- The two totals of the SDK, ShipperStats.Dropped and the one of OnDrop: the larger counts.
pub sdk_total : ℕ → ℕ → ℕ
sdk_total dropped total = if ltb total dropped then dropped else total

pub new_collector : ℕ → ℕ → Collector
unfolding sdk_total
new_collector dropped total = record { last_sdk_drops = sdk_total dropped total }

-- The new drops: a total that has fallen starts again.
pub sample : ℕ → ℕ → Collector → Collector × ℕ
unfolding sdk_total
sample dropped total c =
    let now : ℕ = sdk_total dropped total in
    (
      record { last_sdk_drops = now },
      if ltb now c.last_sdk_drops then now else now - c.last_sdk_drops,
    )

-- healthTracker: the last health of each container.
abbrev pub Tracker : Type 0
Tracker = List (Text × Text)

pub last_of : Text → Tracker → Option Text
last_of c [] = none
last_of c ((k, h) ∷ t) = if text_eq k c then some h else last_of c t

pub set_last : Text → Text → Tracker → Tracker
set_last c h [] = (c, h) ∷ []
set_last c h ((k, g) ∷ t) = if text_eq k c then (k, h) ∷ t else (k, g) ∷ set_last c h t

-- A line of the log: container.health_changed, from one health to another, as a warning or not.
pub record Change : Type 0 where
  pub container : Text
  pub from : Text
  pub to : Text
  pub is_warning : Bool

abbrev pub unhealthy : Text
unhealthy = codes "unhealthy"

change_of : Option Text → Text → Text → Option Change
change_of none c h =
    if text_eq h unhealthy
    then some (record { container = c; from = []; to = h; is_warning = true })
    else none
change_of (some prev) c h =
    if text_eq prev h
    then none
    else some (record { container = c; from = prev; to = h; is_warning = text_eq h unhealthy })

pub observe : Text → Text → Tracker → Tracker × Option Change
unfolding change_of
observe c h t = (set_last c h t, change_of (last_of c t) c h)

pub retain : List Text → Tracker → Tracker
retain present [] = []
retain present ((k, h) ∷ t) =
    let rest = retain present t in if contains present k then (k, h) ∷ rest else rest

-- The registry of an image reference.
pub registry_host : Text → Text
registry_host image = elim (cut_first b'/' image) [
  | none ↦ codes "docker.io"
  | some (first, rest) ↦
      if contains_any first (codes ".:") || text_eq first (codes "localhost")
      then first
      else codes "docker.io"
]
