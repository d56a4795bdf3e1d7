-- ===== src/Telemetry/Tests.antt =====
-- Calls, records and handlers, and the theorems at them.
use lattice_runner.Base.{
  ◌+◌, ◌≡◌, ◌≤◌, refl, true, false, none, some, List, [], ◌∷◌, ◌++◌, codes, length, arith, is_space,
  contains_any,
}
use lattice_runner.Telemetry.{
  str, Attrs, nil, attr, append, Record, monitor_level, level_info, level_error, is_info,
}
use lattice_runner.Telemetry.Limiter.{WarnLimiter, sweep_at, new_warn_limiter, find}
use lattice_runner.Telemetry.Limiter.Counts.{
  Call, run, passed, held_back, reported, owing, run-bounded, run-conserves,
}
use lattice_runner.Telemetry.Limiter.Window.{passed-le}
use lattice_runner.Telemetry.Handler.{
  Outside, RunnerHandler, handle, component_of, event_of, level_of, parse_component, pick, is_blank,
  from_bridge,
}
use lattice_runner.Telemetry.Handler.Unsampled.{Passes, level, parsed, is_wanted, handle-unsampled}
use lattice_runner.Telemetry.Line.{
  Format, LineHandler, line, line_with_attrs, append_attr, append_attrs,
}
use lattice_runner.Telemetry.Line.Equal.{line-with_attrs}

abbrev calls : List Call
calls =
    (codes "a", 100)
    ∷ (codes "a", 110)
    ∷ (codes "b", 115)
    ∷ (codes "a", 120)
    ∷ (codes "a", 159)
    ∷ []

abbrev limiter : WarnLimiter
limiter = new_warn_limiter 2 60

passed-le_example : passed (codes "a") calls limiter ≤ 2
unfolding new_warn_limiter find
passed-le_example = passed-le (codes "a") 100 calls limiter (omega arith) (omega arith) refl

run-conserves_example :
    reported (codes "a") calls limiter + owing (codes "a") (run calls limiter).keys
    ≡ held_back (codes "a") calls limiter + owing (codes "a") limiter.keys
unfolding new_warn_limiter
run-conserves_example = run-conserves (codes "a") calls limiter (omega arith)

run-bounded_example : length (run calls limiter).keys ≤ sweep_at
unfolding new_warn_limiter
run-bounded_example = run-bounded calls limiter (omega arith)

bracket : parse_component (codes "[db] it failed") ≡ (codes "db", codes "it failed")
unfolding parse_component
bracket = refl

colon : parse_component (codes "ws: closed") ≡ (codes "ws", codes "ws: closed")
unfolding parse_component
colon = refl

neither : parse_component (codes "[a b] x") ≡ ([], codes "[a b] x")
unfolding parse_component
neither = refl

abbrev outside : Outside
outside = record {
  out_enabled = some (λ l. true);
  out_handle = λ r. none;
  mon_enabled = λ l. true;
  mon_handle = λ r. none;
  panic_report_line = λ s. false;
  soft_failure = λ s. false;
  hard_failure = λ s. false;
  caution = λ s. false;
  worker_name = codes "w1";
}

abbrev handler : RunnerHandler
handler = record { component = []; event = []; grouped = false }

abbrev failed : Record
failed = record { level = level_error; message = codes "[db] it failed"; attrs = nil }

handle-unsampled_example :
    Passes outside
      (level outside handler limiter 7 false failed)
      (parsed outside handler limiter 7 false failed)
      (event_of outside handler failed)
      failed
      (is_wanted outside handler limiter 7 false failed)
      (handle outside handler limiter 7 false failed).shipped
    × ((handle outside handler limiter 7 false failed).limiter ≡ limiter)
unfolding component_of level_of parse_component pick from_bridge is_info monitor_level
handle-unsampled_example = handle-unsampled outside handler limiter 7 false failed (λ e. cc)

-- Monitor gets the record.
is_wanted-failed : is_wanted outside handler limiter 7 false failed ≡ true
unfolding component_of event_of level_of parse_component pick is_blank is_space
is_wanted-failed = refl

-- A quote that only adds marks.
abbrev format : Format
format = record {
  can_backquote = λ s. true;
  quote = λ s. 34 ∷ (s ++ 34 ∷ []);
  level_text = λ l. codes "ERROR";
}

abbrev grouped : LineHandler
grouped = record { level = level_info; attrs = []; prefix = codes "g." }

abbrev given : Attrs
given = attr (codes "k") (str (codes "two words")) nil

line-with_attrs_example :
    line format (line_with_attrs format given grouped) (codes "t") (some (codes "f.go", 3)) failed
    ≡ line format grouped
        (codes "t")
        (some (codes "f.go", 3))
        (record failed { attrs = append given failed.attrs })
line-with_attrs_example =
    line-with_attrs format grouped given (codes "t") (some (codes "f.go", 3)) failed

grouped_attr : append_attrs format [] (codes "g.") given ≡ codes " g.k=\"two words\""
unfolding append_attrs append_attr contains_any
grouped_attr = refl
