-- ===== src/Endpoint/Options/Gap.antt =====
-- internal/endpoint/log.go and internal/query: which matches of a time without an operator are read.
use ayd.Common.{
  ℕ, ◌+◌, ◌-◌, ◌≤◌, ◌<◌, ◌↔◌, Bool, true, ◌≡◌, refl, ap, ◌∙◌, [], ◌∷◌, none, some, Bytes, arith,
}
use ayd.Api.Record.{Record}
use ayd.Query.Ast.{simple_query, match}
use ayd.Query.TimeRange.{time_range, value_range}
use ayd.Query.Glob.{contains}
use ayd.Query.Values.{
  Standard, GoValue, TimeMatcher, ValueMatcher, time_matcher_range, op_includes, time_value,
}
use ayd.Query.Values.Make.{parse_time_value, new_ordering_value_matcher, new_value_matcher}
use ayd.Query.Values.Match.{value_matchers}
use ayd.Query.Values.Order.{parse_time_value_made, parse_time_value-Splits}
use ayd.Query.Values.Period.{simple_time_match}
use ayd.Endpoint.Options.{Parameters, new_log_options, period, IsRead}

module _ (std : Standard) where
  -- The query that is a text without an operator.
  abbrev pub bare : Bytes → ValueMatcher std.Float
  bare s = new_value_matcher std (some s ∷ []) op_includes

  abbrev pub asking : Bytes → Parameters (value_matchers std)
  asking s = record { any_given = true; limit = []; offset = []; query = simple_query (bare s) }

  bare_lem :
      (s : Bytes) (m : TimeMatcher)
      → std.parse_float s ≡ none
      → std.parse_duration s ≡ none
      → parse_time_value std op_includes s ≡ some m
      → bare s ≡ time_value m
  unfolding new_value_matcher new_ordering_value_matcher
  bare_lem s m f d t = rw (f, d, t) refl

  time_range-includes :
      (m : TimeMatcher)
      → m.op ≡ op_includes
      → time_range {m = value_matchers std} (simple_query (time_value m))
        ≡ (some m.value, some (m.value + m.resolution - 1))
  unfolding time_range value_range time_matcher_range
  time_range-includes m h = rw h refl

  -- A request for a text that is read as a time, and not as a number or a duration. Every record whose
  -- message contains the text matches the query. But of these only the records within the period of
  -- the time are read, less its last nanosecond.
  pub simple_time_gap :
      (parse_uint : Bytes → ℕ × Bool) (now default_period : ℕ) (s : Bytes) (m : TimeMatcher)
      (r : Record (GoValue std.Float))
      → std.parse_float s ≡ none
      → std.parse_duration s ≡ none
      → parse_time_value std op_includes s ≡ some m
      → contains r.message s ≡ true
      → let options = (new_log_options parse_uint now default_period (asking s)).0 in
        (match (value_matchers std) (asking s).query r ≡ true)
        × (IsRead options.start options.end r.time
            ↔ (m.value ≤ r.time) × (r.time + 1 < m.value + m.resolution))
  unfolding new_log_options period
  simple_time_gap parse_uint now d s m r nf nd time text =
      let (op, str) = parse_time_value_made std op_includes s m time in
      let lasts = (parse_time_value-Splits std s m 0 time).0 in
      let text' : contains r.message m.str ≡ true = ap (contains r.message) str ∙ text in
      rw (bare_lem s m nf nd time, time_range-includes m op)
        (simple_time_match std m r op text', ((λ h. omega arith), λ h. omega arith))
