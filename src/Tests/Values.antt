-- ===== src/Tests/Values.antt =====
-- Runs of internal/query/valuematcher.go, with whole numbers for floats.
use ayd.Common.{
  ◌+◌, ◌-◌, ◌*◌, ◌≤◌, ◌<◌, true, false, ◌≡◌, refl, ℕ, [], ◌∷◌, Option, none, some, Bytes, codes,
  bytes_eq, arith, ltb, ◌==◌, if◌then◌else◌, ◌↔◌,
}
use ayd.Calendar.{
  Civil, reading_of, day_number, month_start, days_before_year, days_in_month, leap_day,
}
use ayd.Api.Record.{Record, message, latency}
use ayd.Api.ParseTime.{
  second_ns, is_not_digit, digit_at, parse_4_digits, parse_2_digits, is_date_time_delim, parse_date,
  parse_time_zone, fraction_digit, fraction, parse_time, moved_seconds, date_in_range,
  parse_rfc3339,
}
use ayd.Api.ParseTime.Formats.{parse_time_with_resolution, time_formats, first_parsed}
use ayd.Query.Ast.{match, field_query}
use ayd.Query.TimeRange.{time_range}
use ayd.Query.TimeRange.Period.{InRange}
use ayd.Query.Glob.{exact, contains, string_match, new_string_matcher}
use ayd.Query.Values.{
  pos, negsuc, Standard, GoValue, TimeMatcher, time_matcher_range, match_instant, compared,
  op_includes, op_less_than, op_greater_than, time_value, number_value, duration_value,
  string_value, int_eq, int_lt, milliseconds,
}
use ayd.Query.Values.Make.{
  parse_time_value, new_value_matcher, new_ordering_value_matcher, new_string_value_matcher,
}
use ayd.Query.Values.Match.{
  value_match, value_matchers, number_of, time_of, duration_of, text_of, text_match,
}
use ayd.Query.Values.Period.{IsPeriod, field_time-InRange}
use ayd.Endpoint.Options.{new_log_options, IsRead}
use ayd.Endpoint.Options.Gap.{asking, simple_time_gap}
use ayd.Query.Values.Order.{Splits, parse_time_value-Splits}
use ayd.Api.Status
use ayd.Tests.Matchers.{sample_url}

abbrev day_of : Bytes → Option ℕ
day_of s = if bytes_eq s (codes "2021-02-03") then some 1_000_000_000_000_000 else none

abbrev standard : Standard
standard = record {
  Float = ℕ;
  float_eq = λ a b. a == b;
  float_lt = ltb;
  float_of_int = λ i. 0;
  float_of_latency = λ n. n;
  float_instant = λ x. x;
  float_duration = pos;
  parse_float = λ s. if bytes_eq s (codes "12") then some 12 else none;
  parse_duration = λ s. if bytes_eq s (codes "5ms") then some (pos 5_000_000) else none;
  parse_layout = λ l s. none;
  zoned = λ t. t.reading;
  parse_day = day_of;
  parse_clock = λ l s. none;
  midnight = 0;
  time_text = λ t. [];
  latency_text = λ n. [];
  int_text = λ i. [];
  float_text = λ x. [];
}

runs : Unit {0}
unfolding reading_of day_number month_start days_before_year days_in_month leap_day is_not_digit
    digit_at parse_4_digits parse_2_digits is_date_time_delim parse_date parse_time_zone
    fraction_digit fraction parse_time moved_seconds date_in_range parse_rfc3339
    parse_time_with_resolution time_formats first_parsed bytes_eq contains string_match
    new_string_matcher match_instant compared int_eq int_lt parse_time_value new_value_matcher
    new_ordering_value_matcher new_string_value_matcher value_match number_of time_of duration_of
    text_of text_match time_matcher_range
runs = tt

abbrev noon : Civil
noon = record { year = 2021; month = 2; day = 3; hour = 12; minute = 5; second = 0; nanosecond = 0 }

abbrev a_minute : ℕ → ℕ → TimeMatcher
a_minute op value = record {
  op = op;
  value = value;
  resolution = 60 * second_ns;
  str = codes "2021-02-03T12:05Z";
}

abbrev within_noon : TimeMatcher
within_noon = a_minute op_includes (reading_of noon)

within_minute : parse_time_value standard op_includes (codes "2021-02-03T12:05Z") ≡ some within_noon
unfolding runs
within_minute = refl

behind_minute :
    new_value_matcher standard (some (codes "2021-02-03T12:05Z") ∷ []) op_greater_than
    ≡ time_value (a_minute op_greater_than (reading_of noon + 60 * second_ns - 1))
unfolding runs
behind_minute = refl

whole_day :
    new_value_matcher standard (some (codes "2021-02-03") ∷ []) op_less_than
    ≡ time_value (record {
      op = op_less_than;
      value = 1_000_000_000_000_000;
      resolution = 86_400 * second_ns;
      str = codes "2021-02-03";
    })
unfolding runs
whole_day = refl

number_or_text :
    (new_value_matcher standard (some (codes "12") ∷ []) 1 ≡ number_value 1 12 (codes "12"))
    × (new_value_matcher standard (some (codes "5ms") ∷ []) 1
        ≡ duration_value 1 (pos 5_000_000) (codes "5ms"))
    × (new_value_matcher standard (some (codes "disk") ∷ []) 1
        ≡ string_value 1 (exact (codes "disk")))
unfolding runs
number_or_text = (refl, refl, refl)

-- `latency>5ms` on six milliseconds, and the bare word 12 on a message with that text.
numbers :
    (value_match standard (duration_value 4 (pos 5_000_000) (codes "5ms")) (latency 6_000_000)
      ≡ true)
    × (value_match standard (number_value 0 12 (codes "12")) (message (codes "a12")) ≡ true)
    × (value_match standard (number_value 1 12 (codes "12")) (message (codes "a12")) ≡ false)
unfolding runs
numbers = (refl, refl, refl)

-- The product of `time.Duration(v) * time.Millisecond` wraps around.
wrapped :
    (milliseconds (negsuc 1) ≡ negsuc 1_999_999)
    × (milliseconds (pos 9_223_372_036_855) ≡ negsuc 9_223_372_036_854_551_615)
unfolding milliseconds
wrapped = (refl, refl)

within_noon-IsPeriod : IsPeriod within_noon
unfolding runs
within_noon-IsPeriod = omega arith

-- A record of three hours later with a text that has the time in it.
abbrev later_record : Record (GoValue ℕ)
later_record = record {
  time = reading_of (record noon { hour = 15 });
  status = Status.failure;
  latency = 2;
  target = sample_url;
  message = codes "down since 2021-02-03T12:05Z";
  extra = [];
}

field_time-InRange_example :
    (match
        (value_matchers standard)
        (field_query (exact (codes "time")) (time_value within_noon))
        later_record
      ≡ true)
    ↔ InRange
        (time_range {m = value_matchers standard}
          (field_query (exact (codes "time")) (time_value within_noon)))
        later_record.time
field_time-InRange_example =
    field_time-InRange standard within_noon later_record within_noon-IsPeriod tt

holds_time : contains later_record.message within_noon.str ≡ true
unfolding runs
holds_time = refl

no_float : standard.parse_float within_noon.str ≡ none
unfolding runs
no_float = refl

no_duration : standard.parse_duration within_noon.str ≡ none
unfolding runs
no_duration = refl

simple_time_gap_example :
    let options =
      (new_log_options {m = value_matchers standard}
        (λ text. (0, true))
        20
        10
        (asking standard within_noon.str)).0 in
    (match (value_matchers standard) (asking standard within_noon.str).query later_record ≡ true)
    × (IsRead options.start options.end later_record.time
        ↔ (within_noon.value ≤ later_record.time)
          × (later_record.time + 1 < within_noon.value + within_noon.resolution))
simple_time_gap_example =
    simple_time_gap standard (λ text. (0, true)) 20 10 within_noon.str within_noon later_record
      no_float no_duration within_minute holds_time

parse_time_value-Splits_example :
    (1 ≤ within_noon.resolution)
    × Splits (λ op. parse_time_value standard op (codes "2021-02-03T12:05Z")) within_noon 5
parse_time_value-Splits_example =
    parse_time_value-Splits standard (codes "2021-02-03T12:05Z") within_noon 5 within_minute
