-- ===== src/Query/Values/Make.antt =====
-- internal/query/valuematcher.go: how the value matchers are made from a text.
use ayd.Common.{
  ℕ, ◌+◌, ◌-◌, ◌*◌, true, ◌||◌, List, [], ◌∷◌, ◌++◌, Option, none, some, Bytes, length, ◌==◌,
  if◌then◌else◌,
}
use ayd.Api.Record.{Time}
use ayd.Api.ParseTime.{Read, value, reject, panic, ZonedTime, second_ns}
use ayd.Api.ParseTime.Formats.{parse_time_with_resolution}
use ayd.Query.Glob.{new_string_matcher}
use ayd.Query.Values.{
  ℤ, Standard, ClockLayout, minutes, seconds, fractions, TimeMatcher, ValueMatcher, string_value,
  number_value, time_value, duration_value, op_includes, op_equal, op_greater_than, op_less_equal,
}

abbrev pub day_ns : ℕ
day_ns = 86_400_000_000_000

-- `if op == opGreaterThan || op == opLessEqual { t = t.Add(resolution).Add(-1) }`
abbrev pub edge : ℕ → Time → ℕ → Time
edge op t resolution =
    if (op == op_greater_than) || (op == op_less_equal) then t + resolution - 1 else t

-- One of the three ways to read a time: the matcher for what was read, or the ways that are left.
abbrev pub matcher_or : ℕ → Bytes → Option (Time × ℕ) → Option TimeMatcher → Option TimeMatcher
matcher_or op s (some (t, resolution)) rest =
    some (record { op = op; value = edge op t resolution; resolution = resolution; str = s })
matcher_or op s none rest = rest

-- `layout` and `res`
abbrev pub clock_layout : ℕ → ClockLayout × ℕ
clock_layout n =
    if n == 5
    then (minutes, 60 * second_ns)
    else if n == 8
    then (seconds, second_ns)
    else (fractions, 1)

abbrev pub with_resolution : Option Time → ℕ → Option (Time × ℕ)
with_resolution none resolution = none
with_resolution (some t) resolution = some (t, resolution)

abbrev pub on_day : Time → Option ℕ → Option Time
on_day midnight none = none
on_day midnight (some clock) = some (midnight + clock)

-- A panic is no result; there is none.
abbrev pub zoned_time : Standard → Read (ZonedTime × ℕ) → Option (Time × ℕ)
zoned_time std (value (t, resolution)) = some (std.zoned t, resolution)
zoned_time std reject = none
zoned_time std panic = none

module _ (std : Standard) where
  -- `parseTimeValueMatcher`
  unfoldable pub parse_time_value : ℕ → Bytes → Option TimeMatcher
  parse_time_value op s =
      let (layout, res) = clock_layout (length s) in
      matcher_or op s (zoned_time std (parse_time_with_resolution std.parse_layout s true)) (
        matcher_or op s (if length s == 10 then with_resolution (std.parse_day s) day_ns else none)
          (matcher_or op s (with_resolution (on_day std.midnight (std.parse_clock layout s)) res)
            none))

  abbrev time_matcher_of : Option TimeMatcher → Option (ValueMatcher std.Float)
  time_matcher_of none = none
  time_matcher_of (some m) = some (time_value m)

  abbrev ordering_of :
      ℕ → Bytes → Option std.Float → Option ℤ → Option TimeMatcher → Option (ValueMatcher std.Float)
  ordering_of op s (some n) d t = some (number_value op n s)
  ordering_of op s none (some d) t = some (duration_value op d s)
  ordering_of op s none none t = time_matcher_of t

  -- `newOrderingValueMatcher`, with `none` for its error.
  unfoldable pub new_ordering_value_matcher :
      List (Option Bytes) → ℕ → Option (ValueMatcher std.Float)
  unfolding parse_time_value
  new_ordering_value_matcher (some s ∷ []) op =
      ordering_of op s (std.parse_float s) (std.parse_duration s) (parse_time_value op s)
  new_ordering_value_matcher ss op = none

  -- `newStringValueMatcher`
  unfoldable pub new_string_value_matcher : List (Option Bytes) → ℕ → ValueMatcher std.Float
  unfolding new_string_matcher
  new_string_value_matcher ss op =
      if op == op_includes
      then string_value op_equal (new_string_matcher (none ∷ ss ++ none ∷ []))
      else string_value op (new_string_matcher ss)

  abbrev or_string :
      Option (ValueMatcher std.Float) → ValueMatcher std.Float → ValueMatcher std.Float
  or_string none v = v
  or_string (some m) v = m

  -- `newValueMatcher`
  unfoldable pub new_value_matcher : List (Option Bytes) → ℕ → ValueMatcher std.Float
  unfolding new_ordering_value_matcher new_string_value_matcher
  new_value_matcher ss op =
      or_string (new_ordering_value_matcher ss op) (new_string_value_matcher ss op)
