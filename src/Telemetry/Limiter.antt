-- ===== src/Telemetry/Limiter.antt =====
-- warnLimiter of telemetry/handler.go. The map of keys is a list; times are in any unit.
pub mod Counts
pub mod Window
use lattice_runner.Base.{
  ℕ, zero, suc, ◌+◌, Bool, true, false, not, ◌&&◌, ◌==◌, leb, Option, none, some, List, [], ◌∷◌,
  Text, text_eq, if◌then◌else◌, length,
}

abbrev pub warn_limit : ℕ
warn_limit = 20

abbrev pub sweep_at : ℕ
sweep_at = 4096

pub record WarnWindow : Type 0 where
  pub start : ℕ
  pub sent : ℕ
  pub suppressed : ℕ

pub record WarnLimiter : Type 0 where
  pub limit : ℕ
  pub window : ℕ
  pub keys : List (Text × WarnWindow)

unfoldable pub new_warn_limiter : ℕ → ℕ → WarnLimiter
new_warn_limiter limit window = record { limit = limit; window = window; keys = [] }

unfoldable pub find : Text → List (Text × WarnWindow) → Option WarnWindow
find k [] = none
find k ((j, w) ∷ m) = if text_eq j k then some w else find k m

unfoldable pub put : Text → WarnWindow → List (Text × WarnWindow) → List (Text × WarnWindow)
put k v [] = (k, v) ∷ []
put k v ((j, w) ∷ m) = if text_eq j k then (j, v) ∷ m else (j, w) ∷ put k v m

-- now.Sub(w.start) >= l.window
unfoldable pub is_over : ℕ → ℕ → WarnWindow → Bool
is_over window now w = leb (w.start + window) now

unfoldable pub keep_live : ℕ → ℕ → List (Text × WarnWindow) → List (Text × WarnWindow)
unfolding is_over
keep_live window now [] = []
keep_live window now ((k, w) ∷ m) =
    let rest = keep_live window now m in
    if is_over window now w && w.suppressed == 0 then rest else (k, w) ∷ rest

unfoldable pub sweep : ℕ → ℕ → List (Text × WarnWindow) → List (Text × WarnWindow)
sweep window now m =
    let live : List (Text × WarnWindow) = keep_live window now m in
    if leb sweep_at (length live) then [] else live

-- The window that a call counts in, and the keys that it goes into.
unfoldable pub window_for :
    Option WarnWindow → ℕ → WarnLimiter → List (Text × WarnWindow) × WarnWindow
unfolding is_over
window_for none now l = (
  if leb sweep_at (length l.keys) then sweep l.window now l.keys else l.keys,
  record { start = now; sent = 0; suppressed = 0 },
)
window_for (some w) now l =
    (l.keys, if is_over l.window now w then record w { start = now; sent = 0 } else w)

-- The window afterwards, whether the warning may be sent, and how many were suppressed before it.
unfoldable pub judge : ℕ → WarnWindow → WarnWindow × Bool × ℕ
judge limit w =
    if leb limit w.sent
    then (record w { suppressed = suc w.suppressed }, false, 0)
    else (record w { sent = suc w.sent; suppressed = 0 }, true, w.suppressed)

unfoldable pub allow : Text → ℕ → WarnLimiter → WarnLimiter × Bool × ℕ
allow key now l =
    let found : List (Text × WarnWindow) × WarnWindow = window_for (find key l.keys) now l in
    let judged : WarnWindow × Bool × ℕ = judge l.limit found.1 in
    (record l { keys = put key judged.0 found.0 }, judged.1, judged.2)
