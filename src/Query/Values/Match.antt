-- ===== src/Query/Values/Match.antt =====
-- internal/query/valuematcher.go: the methods `Match`, and the interfaces of query.go and tokenizer.go
-- that the matchers fill.
use ayd.Common.{ℕ, Bool, true, false, ◌&&◌, Option, none, some, Bytes, ◌==◌}
use ayd.Api.Status.{status_string}
use ayd.Api.Record.{Time, Value, time, status, latency, target, message, other}
use ayd.Query.Ast.{Matchers}
use ayd.Query.TimeRange.{Range}
use ayd.Query.Tokens.{Makers}
use ayd.Query.Glob.{StringMatcher, string_match, contains, new_string_matcher}
use ayd.Query.Values.{
  ℤ, pos, int_eq, int_lt, milliseconds, unix, Standard, GoValue, int_value, float_value,
  sized_value, other_value, compared, TimeMatcher, time_matcher_range, match_instant, op_includes,
  ValueMatcher, any_value, string_value, number_value, time_value, duration_value,
}
use ayd.Query.Values.Make.{parse_time_value, new_ordering_value_matcher, new_value_matcher}

abbrev answered : Option Bool → Bool
answered none = false
answered (some b) = b

-- `Match` of the string matchers; the panic that a model of them has is never met.
unfoldable pub text_match : StringMatcher → Bytes → Bool
unfolding string_match
text_match m s = answered (string_match m s)

-- `m.Op == opIncludes && strings.Contains(v, m.Str)`
abbrev pub is_included : {X : Type 0} → ℕ → Bytes → Value X → Bool
is_included op str (message s) = op == op_includes && contains s str
is_included op str v = false

-- `return true`, or the comparison with the value, or `return false` where it has another type.
abbrev pub judge {ℓ} : {A : Type ℓ} → Bool → Option A → (A → Bool) → Bool
judge true seen test = true
judge false none test = false
judge false (some a) test = test a

abbrev pub value_of : Option TimeMatcher → Option Time
value_of none = none
value_of (some m) = some m.value

module _ (std : Standard) where
  -- The type switch of `numberValueMatcher.Match`.
  unfoldable pub number_of : Value (GoValue std.Float) → Option std.Float
  number_of (other (float_value x)) = some x
  number_of (other (int_value i)) = some (std.float_of_int i)
  number_of (other (sized_value x text)) = some x
  number_of (message s) = std.parse_float s
  number_of (latency n) = some (std.float_of_latency n)
  number_of _ = none

  -- The type switch of `timeValueMatcher.Match`.
  unfoldable pub time_of : Value (GoValue std.Float) → Option Time
  unfolding parse_time_value
  time_of (time t) = some t
  time_of (message s) = value_of (parse_time_value std op_includes s)
  time_of (other (int_value i)) = some (unix i)
  time_of (other (float_value x)) = some (std.float_instant x)
  time_of _ = none

  -- The type switch of `durationValueMatcher.Match`.
  unfoldable pub duration_of : Value (GoValue std.Float) → Option ℤ
  duration_of (latency n) = some (pos n)
  duration_of (message s) = std.parse_duration s
  duration_of (other (int_value i)) = some (milliseconds i)
  duration_of (other (float_value x)) = some (std.float_duration x)
  duration_of _ = none

  -- The text that `stringValueMatcher.Match` makes of a value.
  unfoldable pub text_of : Value (GoValue std.Float) → Bytes
  text_of (message s) = s
  text_of (time t) = std.time_text t
  text_of (status s) = status_string s
  text_of (latency n) = std.latency_text n
  text_of (target u) = u.text
  text_of (other (int_value i)) = std.int_text i
  text_of (other (float_value x)) = std.float_text x
  text_of (other (sized_value x text)) = text
  text_of (other (other_value text)) = text

  -- The methods `Match`.
  unfoldable pub value_match : ValueMatcher std.Float → Value (GoValue std.Float) → Bool
  unfolding text_match number_of time_of duration_of text_of
  value_match any_value v = true
  value_match (string_value op m) v = text_match m (text_of v)
  value_match (number_value op x str) v =
      judge (is_included op str v) (number_of v)
        λ n. compared op (std.float_eq n x) (std.float_lt n x) (std.float_lt x n) (std.float_eq n x)
  value_match (time_value m) v = judge (is_included m.op m.str v) (time_of v) (match_instant m)
  value_match (duration_value op x str) v =
      judge (is_included op str v) (duration_of v)
        λ d. compared op (int_eq d x) (int_lt d x) (int_lt x d) (int_eq d x)

  -- `TimeRange`, which only the time matchers have.
  abbrev pub matcher_range : ValueMatcher std.Float → Option Range
  matcher_range (time_value m) = some (time_matcher_range m)
  matcher_range v = none

  abbrev pub value_matchers : Matchers
  value_matchers = record {
    Any = GoValue std.Float;
    StringMatcher = StringMatcher;
    ValueMatcher = ValueMatcher std.Float;
    string_match = text_match;
    value_match = value_match;
    time_range = matcher_range;
  }

  abbrev pub value_makers : Makers value_matchers
  value_makers = record {
    any_value = any_value;
    new_value = new_value_matcher std;
    new_ordering = new_ordering_value_matcher std;
    new_string = new_string_matcher;
  }
