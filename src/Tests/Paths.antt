-- ===== src/Tests/Paths.antt =====
-- Runs of the patterns of log paths.
use mathlib.Core.List.{Memᴰ}
use ayd.Common.{
  ℕ, ◌+◌, ◌*◌, ltb, if◌then◌else◌, ◌≤◌, ◌≡◌, bytes_eq, refl, false, [], ◌∷◌, none, some, codes,
  arith,
}
use ayd.Calendar.{
  Civil, Moment, Location, IsCivil, IsClear, date, reading_of, day_number, month_start,
  days_before_year, days_in_month, leap_day,
}
use ayd.Store.Path.{
  TimePattern, itoa, itoa_digits, two_digits, fill_time_pattern, len, atoi, unsigned, number_from,
  checked, agreed, build_fragment,
}
use ayd.Store.Path.Files.{
  PathPattern, build, build_all, parse_time_pattern, parse_fragments, match_path, matching,
  list_between, is_empty, overlaps, exec, exec_civil, pick,
}
use ayd.Store.Path.Parse.{
  parse_path_pattern, parse_from, directive, replaced, string_of_byte, expand, Plain,
  build-parse_path_pattern,
}
use ayd.Store.Path.Select.{list_between-build, parse_time_pattern-IsTimePattern}
use ayd.Store.Path.Fields.{IsTimePattern}
use ayd.Store.Path.Round.{marks, mark, parse_time_pattern-build}
use ayd.Store.Path.Cover.{gapless}
use ayd.Store.Path.Listing.{
  list_all, parse_names, sort_slice, sort_rounds, sink, swap_at, less_at, less, list_all_unsorted,
}

abbrev daily : PathPattern
daily = parse_path_pattern (codes "ayd_%Y%m%d.log")

abbrev hour_ns : ℕ
hour_ns = 3_600_000_000_000

-- A location so many hours behind the first clock.
abbrev fixed : ℕ → Location
fixed h n = n + h * hour_ns

abbrev in_zone : Location → Civil → Moment
in_zone l c = record { civil = c; location = l; instant = date c l }

abbrev at : Civil → Moment
at c = in_zone (fixed 0) c

abbrev morning : Civil
morning = record {
  year = 2021;
  month = 2;
  day = 3;
  hour = 4;
  minute = 5;
  second = 6;
  nanosecond = 7;
}

abbrev evening : Civil
evening = record morning { hour = 20 }

abbrev month_later : Civil
month_later = record morning { month = 3 }

runs : Unit {0}
unfolding build parse_path_pattern parse_from directive build_all build_fragment two_digits itoa
    itoa_digits parse_time_pattern parse_fragments len fill_time_pattern bytes_eq atoi unsigned
    number_from checked agreed match_path matching list_between is_empty overlaps exec exec_civil
    pick date reading_of day_number month_start days_before_year days_in_month leap_day gapless
    marks mark expand replaced Plain string_of_byte list_all parse_names sort_slice sort_rounds sink
    swap_at less_at less
runs = tt

daily_name : build daily (at morning) ≡ codes "ayd_20210203.log"
unfolding runs
daily_name = refl

morning-IsCivil : IsCivil morning
unfolding runs
morning-IsCivil = omega arith

evening-IsCivil : IsCivil evening
unfolding runs
evening-IsCivil = omega arith

month_later-IsCivil : IsCivil month_later
unfolding runs
month_later-IsCivil = omega arith

-- Percent signs, unknown directives and a sign at the end.
odd_path : build (parse_path_pattern (codes "a%%%x%Y%")) (at morning) ≡ codes "a%%x2021%"
unfolding runs
odd_path = refl

-- Behind a percent sign a byte from 128 on becomes two.
widened : build (parse_path_pattern (b'%' ∷ 233 ∷ [])) (at morning) ≡ b'%' ∷ 195 ∷ 169 ∷ []
unfolding runs
widened = refl

-- A file of the next day is not one of the period.
other_day :
    list_between daily
      (some (codes "ayd_20210204.log" ∷ codes "ayd_20210203.log" ∷ []))
      (at morning)
      (at evening)
    ≡ codes "ayd_20210203.log" ∷ []
unfolding runs
other_day = refl

build-parse_path_pattern_example :
    build daily (at morning) ≡ expand (codes "ayd_%Y%m%d.log") morning
unfolding runs
build-parse_path_pattern_example =
    build-parse_path_pattern (codes "ayd_%Y%m%d.log") (at morning)
      (omega arith, (omega arith, (omega arith, tt)))

abbrev by_month : TimePattern
by_month = record { year = some 2021; month = some 2; day = some 3; hour = none; minute = none }

parse_time_pattern-build_example :
    parse_time_pattern daily (build daily (at morning)) ≡ some by_month
unfolding runs
parse_time_pattern-build_example =
    parse_time_pattern-build daily (at morning) morning-IsCivil (omega arith)

parse_time_pattern-IsTimePattern_example : IsTimePattern by_month
unfolding runs
parse_time_pattern-IsTimePattern_example =
    parse_time_pattern-IsTimePattern daily (codes "ayd_20210203.log") by_month refl

-- Clocks four hours behind the first clock that were put back by an hour at two o'clock on 7 November
-- 2021: what they read from one to two, they read twice, and `time.Date` takes it for the first time.
abbrev change : Civil
change = record {
  year = 2021;
  month = 11;
  day = 7;
  hour = 2;
  minute = 0;
  second = 0;
  nanosecond = 0;
}

unfoldable eastern : Location
eastern n = if ltb n (reading_of change) then n + 4 * hour_ns else n + 5 * hour_ns

evening-IsClear : IsClear (in_zone eastern evening)
unfolding runs eastern
evening-IsClear = record {
  settled = refl;
  readings_before = λ n h. ground arith;
  readings_after = λ n h. ground arith;
}

list_between-build_example : Memᴰ (build daily (in_zone eastern evening)) (
    list_between daily
      (some (codes "x.log" ∷ build daily (in_zone eastern evening) ∷ []))
      (in_zone eastern morning)
      (in_zone eastern month_later))
unfolding runs eastern
list_between-build_example =
    list_between-build daily (codes "x.log" ∷ build daily (in_zone eastern evening) ∷ [])
      (in_zone eastern morning) (in_zone eastern month_later) (in_zone eastern evening)
      evening-IsCivil morning-IsCivil month_later-IsCivil (omega arith) (omega arith) refl refl refl
      evening-IsClear refl refl (omega arith) (omega arith) (Memᴰ.tail (Memᴰ.head refl))

-- The second time that these clocks read so many minutes past one.
abbrev again : ℕ → Moment
again m =
    let c : Civil = record change { hour = 1; minute = m } in
    record { civil = c; location = eastern; instant = reading_of c + 5 * hour_ns }

abbrev hourly : PathPattern
hourly = parse_path_pattern (codes "%Y%m%d_%H")

-- The file of a record in the repeated hour is missed, for a period around the record.
missed_by_change :
    ((again 10).instant ≤ (again 20).instant)
    × ((again 20).instant ≤ (again 40).instant)
    × (match_path hourly (build hourly (again 20)) (again 10) (again 40) ≡ false)
unfolding runs eastern
missed_by_change = (omega arith, omega arith, refl)

-- The file of a day is missed where the path has the year and the day and no month.
abbrev year_and_day : PathPattern
year_and_day = parse_path_pattern (codes "%Y-%d.log")

abbrev next_year : Civil
next_year = record morning { year = 2022; month = 1; day = 1 }

missed_by_gap :
    (build year_and_day (at evening) ≡ codes "2021-03.log")
    × (list_between year_and_day
          (some (codes "2021-03.log" ∷ []))
          (at (record morning { month = 2; day = 1 }))
          (at next_year)
        ≡ [])
unfolding runs
missed_by_gap = (refl, refl)

-- The file of an instant is missed where it was named in another zone: here an hour after midnight,
-- nine hours ahead.
abbrev ahead : Moment
ahead = at (record morning { hour = 1 })

abbrev behind : ℕ → Moment
behind h = in_zone (fixed 9) (record morning { day = 2; hour = h })

missed_by_zone :
    ((behind 15).instant ≤ ahead.instant)
    × (ahead.instant ≤ (behind 17).instant)
    × (match_path daily (build daily ahead) (behind 15) (behind 17) ≡ false)
unfolding runs
missed_by_zone = (omega arith, omega arith, refl)

abbrev monthly : PathPattern
monthly = parse_path_pattern (codes "%m-%Y")

abbrev month_of : ℕ → ℕ → TimePattern
month_of y m = record { year = some y; month = some m; day = none; hour = none; minute = none }

-- The names in the order in which `filepath.Glob` gives them.
list_all_unsorted_example :
    list_all monthly (some (codes "02-2022" ∷ codes "03-2021" ∷ codes "12-2021" ∷ []))
    ≡ codes "03-2021" ∷ codes "02-2022" ∷ codes "12-2021" ∷ []
unfolding runs
list_all_unsorted_example =
    list_all_unsorted monthly (codes "02-2022") (codes "03-2021") (codes "12-2021")
      (month_of 2022 2) (month_of 2021 3) (month_of 2021 12) refl refl refl refl refl
