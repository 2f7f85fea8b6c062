-- ===== src/Tests/Times.antt =====
-- Runs of the parser of times.
use ayd.Common.{◌≡◌, ◌≢◌, refl, true, false, none, codes, arith}
use ayd.Calendar.{
  Civil, IsCivil, reading_of, day_number, month_start, days_before_year, days_in_month, leap_day,
}
use ayd.Api.ParseTime.{
  value, reject, panic, is_not_digit, digit_at, parse_4_digits, parse_2_digits, is_date_time_delim,
  parse_date, utc, east, parse_time_zone, fraction_digit, fraction, parse_time, moved_seconds,
  date_in_range, parse_rfc3339, second_ns,
}
use ayd.Api.ParseTime.Formats.{parse_time_with_resolution, parse_time_with_resolution_total}
use ayd.Api.ParseTime.Round.{rfc3339, parse_rfc3339-rfc3339}

runs : Unit {0}
unfolding reading_of day_number month_start days_before_year days_in_month leap_day is_not_digit
    digit_at parse_4_digits parse_2_digits is_date_time_delim parse_date parse_time_zone
    fraction_digit fraction parse_time moved_seconds date_in_range parse_rfc3339 rfc3339
runs = tt

abbrev noon : Civil
noon = record { year = 2021; month = 2; day = 3; hour = 12; minute = 5; second = 6; nanosecond = 0 }

noon-IsCivil : IsCivil noon
unfolding runs
noon-IsCivil = omega arith

noon_text : rfc3339 noon ≡ codes "2021-02-03T12:05:06Z"
unfolding runs
noon_text = refl

-- A short form with a fraction and a zone.
short_form :
    parse_rfc3339 (codes "20210203 120506.25+09") false
    ≡ value (
      record { reading = reading_of (record noon { nanosecond = 250_000_000 }); zone = east 32400 },
      10_000_000,
    )
unfolding runs
short_form = refl

-- The 30th of February is the 2nd of March.
february_30 :
    parse_rfc3339 (codes "2021-02-30T12:05:06Z") false
    ≡ value (
      record { reading = reading_of (record noon { month = 3; day = 2 }); zone = utc },
      second_ns,
    )
unfolding runs
february_30 = refl

year_minus_one : parse_rfc3339 (codes "0000-00-30T12:05:06Z") false ≡ reject
unfolding runs
year_minus_one = refl

parse_rfc3339-rfc3339_example :
    parse_rfc3339 (rfc3339 noon) false
    ≡ value (record { reading = reading_of noon; zone = utc }, second_ns)
unfolding runs
parse_rfc3339-rfc3339_example = parse_rfc3339-rfc3339 noon noon-IsCivil (omega arith) false refl

parse_time_with_resolution_total_example :
    parse_time_with_resolution (λ l s. none) (codes "2021-02-03T12:05:0") true ≢ panic
parse_time_with_resolution_total_example =
    parse_time_with_resolution_total (λ l s. none) (codes "2021-02-03T12:05:0") true
