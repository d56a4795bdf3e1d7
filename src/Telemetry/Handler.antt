-- ===== src/Telemetry/Handler.antt =====
-- runnerHandler of telemetry/handler.go: what reaches stderr and what reaches Monitor.
pub mod Unsampled
use lattice_runner.Base.{
  ℕ, zero, suc, ◌+◌, Bool, true, false, not, ◌&&◌, ◌||◌, ◌==◌, leb, ltb, Option, none, some, List,
  [], ◌∷◌, ◌++◌, Text, codes, text_eq, if◌then◌else◌, is_nil, is_space, decimal, ℤ, pos,
}
use lattice_runner.Telemetry.{
  Value, str, other, nothing, group, Attrs, nil, attr, append, Record, level_info, is_info,
  MonitorLevel, debug, info, warn, error, fatal, monitor_level, slog_level,
}
use lattice_runner.Telemetry.Limiter.{WarnLimiter, allow}

-- What the handler calls: the handlers behind it, where the one of stderr may be nil, with the
-- errors that they return, the regular expressions, and the worker's name.
pub record Outside : Type 0 where
  pub out_enabled : Option (ℤ → Bool)
  pub out_handle : Record → Option Text
  pub mon_enabled : ℤ → Bool
  pub mon_handle : Record → Option Text
  pub panic_report_line : Text → Bool
  pub soft_failure : Text → Bool
  pub hard_failure : Text → Bool
  pub caution : Text → Bool
  pub worker_name : Text

-- The handler's own fields beside those.
pub record RunnerHandler : Type 0 where
  pub component : Text
  pub event : Text
  pub grouped : Bool

-- What one call of Handle does: the limiter, the records written and shipped, and the error.
pub record Handled : Type 0 where
  pub limiter : WarnLimiter
  pub written : List Record
  pub shipped : List Record
  pub err : Option Text

-- The last string attribute with a key that is not empty.
unfoldable pub pick : Text → Text → Attrs → Text
pick key found nil = found
pick key found (attr k (str s) rest) =
    pick key (if text_eq k key && not (is_nil s) then s else found) rest
pick key found (attr k _ rest) = pick key found rest

unfoldable pub with_attrs : Attrs → RunnerHandler → RunnerHandler
with_attrs attrs h = if h.grouped then h else record h {
  component = pick (codes "component") h.component attrs;
  event = pick (codes "event") h.event attrs;
}

unfoldable pub with_group : Text → RunnerHandler → RunnerHandler
with_group name h = if is_nil name then h else record h { grouped = true }

is_word : ℕ → Bool
is_word c =
    leb b'a' c && leb c b'z'
    || leb b'A' c && leb c b'Z'
    || leb b'0' c && leb c b'9'
    || c == b'_'
    || c == b'-'

is_small_word : ℕ → Bool
is_small_word c = leb b'a' c && leb c b'z' || leb b'0' c && leb c b'9' || c == b'_' || c == b'-'

is_small : ℕ → Bool
is_small c = leb b'a' c && leb c b'z'

-- The longest start of a text in a class of characters, and the rest.
span : (ℕ → Bool) → Text → Text × Text
span p [] = ([], [])
span p (c ∷ s) = let (a, b) = span p s in if p c then (c ∷ a, b) else ([], c ∷ s)

drop_space : Text → Text
drop_space [] = []
drop_space (c ∷ s) = if c == 32 then s else c ∷ s

-- `^\[([A-Za-z0-9_-]+)\] ?`
close_bracket : Text × Text → Option (Text × Text)
close_bracket (name, []) = none
close_bracket (name, c ∷ s) =
    if c == b']' && not (is_nil name) then some (name, drop_space s) else none

bracket_component : Text → Option (Text × Text)
bracket_component [] = none
bracket_component (c ∷ s) = if c == b'[' then close_bracket (span is_word s) else none

-- `^([a-z][a-z0-9_-]*): `
before_colon : Text × Text → Option Text
before_colon (name, c ∷ d ∷ s) = if c == b':' && d == 32 then some name else none
before_colon _ = none

colon_component : Text → Option Text
colon_component [] = none
colon_component (c ∷ s) = if is_small c then before_colon (span is_small_word (c ∷ s)) else none

unfoldable pub parse_component : Text → Text × Text
unfolding bracket_component close_bracket span is_word is_small is_small_word drop_space
    colon_component before_colon
parse_component line = elim (bracket_component line) [
  | some (name, rest) ↦ (name, rest)
  | none ↦ elim (colon_component line) [ some name ↦ (name, line) | none ↦ ([], line) ]
]

-- strings.TrimSpace(msg) == "", for white space of ASCII.
unfoldable pub is_blank : Text → Bool
is_blank [] = true
is_blank (c ∷ s) = is_space c && is_blank s

module _ (o : Outside) where
  unfoldable pub classify : Text → MonitorLevel
  classify msg =
      if o.soft_failure msg
      then warn
      else if o.hard_failure msg
      then error
      else if o.caution msg
      then warn
      else info

  unfoldable pub enabled : ℤ → Bool
  enabled l = elim o.out_enabled [ none ↦ false | some e ↦ e l ] || o.mon_enabled l

  -- The records that stderr gets, and the error.
  unfoldable pub write_out : Record → List Record × Option Text
  write_out r = elim o.out_enabled [
    | none ↦ ([], none)
    | some e ↦ if e r.level then (r ∷ [], o.out_handle r) else ([], none)
  ]

  -- The component and the message without it, and whether the component was given.
  unfoldable pub component_of : RunnerHandler → Record → Text × Text × Bool
  component_of h r =
      let given : Text =
        if h.grouped then h.component else pick (codes "component") h.component r.attrs in
      if is_nil given
      then (let (found, msg) = parse_component r.message in (found, msg, false))
      else (given, r.message, true)

  unfoldable pub event_of : RunnerHandler → Record → Text
  event_of h r = if h.grouped then h.event else pick (codes "event") h.event r.attrs

  unfoldable pub level_name : MonitorLevel → Text
  level_name debug = codes "debug"
  level_name info = codes "info"
  level_name warn = codes "warn"
  level_name error = codes "error"
  level_name fatal = codes "fatal"

  one : Text → Text → Attrs
  one k v = attr k (str v) nil

  unfoldable pub event_attr : Text → Text → MonitorLevel → Attrs
  unfolding one level_name
  event_attr event component l =
      if is_nil event
      then one (codes "event") (
          (if is_nil component then codes "runner" else component)
          ++ (codes ".log." ++ level_name l))
      else nil

  unfoldable pub component_attr : Bool → Text → Attrs
  unfolding one
  component_attr has_component component =
      if has_component then nil else one (codes "component") component

  unfoldable pub suppressed_attr : ℕ → Attrs
  suppressed_attr n = if ltb 0 n then attr (codes "suppressed") (other (decimal n)) nil else nil

  -- The copy for Monitor.
  unfoldable pub enriched : Record → ℤ → Text × Text × Bool → Text → ℕ → Record
  unfolding one
  enriched r level (component, msg, has_component) event suppressed = record {
    level = level;
    message = msg;
    attrs = append r.attrs (
        append (event_attr event component (monitor_level level)) (
          append (component_attr has_component component)
            (append (one (codes "worker") o.worker_name) (suppressed_attr suppressed))));
  }

  is_warn : MonitorLevel → Bool
  is_warn warn = true
  is_warn _ = false

  first_error : Option Text → Option Text → Option Text
  first_error none e = e
  first_error (some d) e = some d

  -- The limiter afterwards, and the count to report where the record may be shipped.
  unfoldable pub limited : MonitorLevel → Text → ℕ → WarnLimiter → WarnLimiter × Option ℕ
  unfolding is_warn
  limited l key now lim =
      if is_warn l
      then (let (lim', ok, n) = allow key now lim in (lim', if ok then some n else none))
      else (lim, some 0)

  -- Monitor gets the record.
  ship : List Record × Option Text → WarnLimiter × Option ℕ → (ℕ → Record) → Handled
  unfolding first_error
  ship out (lim, none) copy = record { limiter = lim; written = out.0; shipped = []; err = out.1 }
  ship out (lim, some n) copy = record {
    limiter = lim;
    written = out.0;
    shipped = copy n ∷ [];
    err = first_error out.1 (o.mon_handle (copy n));
  }

  -- fromBridge, where `called` is the answer of calledFromLogBridge.
  unfoldable pub from_bridge : Bool → Record → Bool
  from_bridge called r = elim r.attrs [ nil ↦ called | attr k v a ↦ false ] && is_info r.level

  unfoldable pub level_of : Bool → Record → Text → ℤ
  level_of called r msg = if from_bridge called r then slog_level (classify msg) else r.level

  -- A report of a panic, or nothing to say.
  unfoldable pub is_left_out : Text → Text → Bool
  is_left_out event msg = o.panic_report_line msg || is_nil event && is_blank msg

  unfoldable pub handle : RunnerHandler → WarnLimiter → ℕ → Bool → Record → Handled
  unfolding ship
  handle h lim now called r =
      let out : List Record × Option Text = write_out r in
      let parsed : Text × Text × Bool = component_of h r in
      let event : Text = event_of h r in
      let level : ℤ = level_of called r parsed.1 in
      let stop : Handled = record { limiter = lim; written = out.0; shipped = []; err = out.1 } in
      if is_left_out event parsed.1
      then stop
      else if not (o.mon_enabled level)
      then stop
      else ship out (limited (monitor_level level) (parsed.0 ++ 0 ∷ parsed.1) now lim)
          (enriched r level parsed event)
