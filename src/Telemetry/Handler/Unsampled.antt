-- ===== src/Telemetry/Handler/Unsampled.antt =====
-- What the handler must not lose.
use lattice_runner.Base.{
  ℕ, ◌≡◌, ◌≢◌, refl, Bool, true, false, not, ◌&&◌, ◌||◌, Option, none, some, List, [], ◌∷◌, ◌++◌,
  Text, codes, text_eq, is_nil, if◌then◌else◌, ℤ, Bool-cases, inl, inr, arith,
}
use lattice_runner.Telemetry.{
  Value, str, Attrs, nil, attr, append, Record, MonitorLevel, debug, info, warn, error, fatal,
  monitor_level,
}
use lattice_runner.Telemetry.Limiter.{WarnLimiter}
use lattice_runner.Telemetry.Handler.{
  Outside, RunnerHandler, component_of, event_of, level_of, level_name, is_blank, is_left_out,
  limited, is_warn, ship, event_attr, component_attr, suppressed_attr, enriched, handle,
}

-- The first value under a key.
abbrev pub value_of : Text → Attrs → Option Value
value_of k nil = none
value_of k (attr j v a) = if text_eq j k then some v else value_of k a

-- The copy of a record for Monitor: the record at the level that the handler finds, without the
-- component in its message, and behind its attributes those that it lacks, and the worker.
pub record IsCopy (o : Outside) (level : ℤ) (parsed : Text × Text × Bool) (event : Text)
    (r c : Record) : Type 0 where
  pub level_lem : c.level ≡ level
  pub message_lem : c.message ≡ parsed.1
  pub added : Attrs
  pub attrs_lem : c.attrs ≡ append r.attrs added
  pub worker : value_of (codes "worker") added ≡ some (str o.worker_name)
  pub component :
      value_of (codes "component") added ≡ (if parsed.2 then none else some (str parsed.0))
  pub event_lem : value_of (codes "event") added ≡ (
      if is_nil event
      then some (
          str (
            (if is_nil parsed.0 then codes "runner" else parsed.0)
            ++ (codes ".log." ++ level_name o (monitor_level level))))
      else none)
  pub suppressed : value_of (codes "suppressed") added ≡ none

enriched-IsCopy :
    (o : Outside) (level : ℤ) (parsed : Text × Text × Bool) (event : Text) (r : Record)
    → IsCopy o level parsed event r (enriched o r level parsed event 0)
unfolding enriched event_attr component_attr suppressed_attr append text_eq
enriched-IsCopy o level (component, msg, given) event r = record {
  level_lem = refl;
  message_lem = refl;
  added = _;
  attrs_lem = refl;
  worker = ground arith;
  component = ground arith;
  event_lem = ground arith;
  suppressed = ground arith;
}

limited-ne_warn :
    (o : Outside) (l : MonitorLevel) (key : Text) (now : ℕ) (lim : WarnLimiter)
    → l ≢ warn
    → limited o l key now lim ≡ (lim, some 0)
unfolding limited is_warn
limited-ne_warn o debug key now lim h = refl
limited-ne_warn o info key now lim h = refl
limited-ne_warn o warn key now lim h = absurd (h refl)
limited-ne_warn o error key now lim h = refl
limited-ne_warn o fatal key now lim h = refl

-- What reaches Monitor of a record, by whether it is wanted there.
pub data Passes (o : Outside) (level : ℤ) (parsed : Text × Text × Bool) (event : Text) (r : Record)
    : Bool → List Record → Type 0 where
  unwanted : Passes o level parsed event r false []
  wanted :
      {c : Record} → IsCopy o level parsed event r c → Passes o level parsed event r true (c ∷ [])

module _ (o : Outside) (h : RunnerHandler) (lim : WarnLimiter) (now : ℕ) (called : Bool)
    (r : Record) where
  abbrev pub parsed : Text × Text × Bool
  parsed = component_of o h r

  abbrev pub level : ℤ
  level = level_of o called r parsed.1

  -- Monitor takes the level, the message is no line of a panic's report, and there is an event or
  -- something in the message.
  abbrev pub is_wanted : Bool
  is_wanted =
      o.mon_enabled level
      && (not (o.panic_report_line parsed.1)
          && (not (is_nil (event_of o h r)) || not (is_blank parsed.1)))

  -- Only warnings are sampled: of a record whose level is not that of a warning, Monitor gets one
  -- copy where it takes the level, the message is no line of a panic's report, and there is an
  -- event or a message that is not blank; otherwise it gets none. The copy has the level and the
  -- message that the handler finds, and behind the record's own attributes the name of the worker,
  -- the component and the event where the record has none, and no count of suppressed warnings. The
  -- limiter stays as it was.
  pub handle-unsampled :
      monitor_level level ≢ warn
      → Passes o level parsed (event_of o h r) r is_wanted (handle o h lim now called r).shipped
        × ((handle o h lim now called r).limiter ≡ lim)
  unfolding handle is_left_out ship
  handle-unsampled w =
      let free : limited o (monitor_level level) (parsed.0 ++ 0 ∷ parsed.1) now lim
          ≡ (lim, some 0) =
        limited-ne_warn o (monitor_level level) (parsed.0 ++ 0 ∷ parsed.1) now lim w in
      let copy : IsCopy o level parsed (event_of o h r) r
          (enriched o r level parsed (event_of o h r) 0) =
        enriched-IsCopy o level parsed (event_of o h r) r in
      elim (Bool-cases (o.mon_enabled level)) [
        | inl e ↦ elim (Bool-cases (o.panic_report_line parsed.1)) [
          | inl p ↦ rw (e, p) (unwanted, refl)
          | inr p ↦ elim (Bool-cases (is_nil (event_of o h r))) [
            | inl n ↦ elim (Bool-cases (is_blank parsed.1)) [
              | inl b ↦ rw (e, p, n, b) (unwanted, refl)
              | inr b ↦ rw (e, p, n, b, free) (wanted copy, refl)
            ]
            | inr n ↦ rw (e, p, n, free) (wanted copy, refl)
          ]
        ]
        | inr e ↦ elim (Bool-cases (is_left_out o (event_of o h r) parsed.1)) [
          | inl k ↦ rw (e, k) (unwanted, refl)
          | inr k ↦ rw (e, k) (unwanted, refl)
        ]
      ]
