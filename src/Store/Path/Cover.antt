-- ===== src/Store/Path/Cover.antt =====
-- internal/store/pattern.go: `Exec` gives the first and the last instant at which `Build` can have
-- made a file name, within the period asked for.
use ayd.Common.{◌+◌, ◌*◌, ◌≤◌, Bool, true, not, ◌&&◌, ◌||◌, arith, ◌≡◌}
use ayd.Calendar.{Civil, IsCivil, reading_of, day_number, month_start}
use ayd.Calendar.Months.{days_in_month-le, month_start_mono}
use ayd.Calendar.Order.{AtMost}
use ayd.Store.Path.{TimePattern, min_time_pattern, max_time_pattern}
use ayd.Store.Path.Files.{is_set, pick, exec_civil}
use ayd.Store.Path.Round.{Reads}

-- No number is missing between two that are set, from the year down to the minute.
unfoldable pub gapless : TimePattern → Bool
gapless p =
    let below_hour = is_set p.minute in
    let below_day = is_set p.hour || below_hour in
    let below_month = is_set p.day || below_day in
    let above_month = is_set p.year in
    let above_day = is_set p.month || above_month in
    let above_hour = is_set p.day || above_day in
    (is_set p.hour || not below_hour || not above_hour)
    && (is_set p.day || not below_day || not above_day)
    && (is_set p.month || not below_month || not above_month)

module _ {t u : Civil} {tp : TimePattern} (v : IsCivil t) (fits : t.year ≤ 9999) (r : Reads t tp)
    (whole : gapless tp ≡ true) (le : AtMost t u) where
  abbrev last_civil : Civil
  last_civil = exec_civil tp u max_time_pattern

  last_year : t.year ≤ last_civil.year
  unfolding exec_civil pick
  last_year = ground arith

  last_month : month_start t.year t.month ≤ month_start last_civil.year last_civil.month
  unfolding exec_civil pick gapless
  last_month = ground (
    arith,
    month_start_mono t.year last_civil.year t.month t.month,
    month_start_mono t.year last_civil.year t.month 12,
    last_year,
  )

  last_day : day_number t ≤ day_number last_civil
  unfolding exec_civil pick gapless day_number
  last_day = ground (arith, last_month, days_in_month-le t.year t.month)

  last_hour : day_number t * 24 + t.hour ≤ day_number last_civil * 24 + last_civil.hour
  unfolding exec_civil pick gapless day_number
  last_hour = ground (arith, last_day)

  -- The last reading of a file name is no earlier than any at which it was made.
  pub exec-max : reading_of t ≤ reading_of last_civil
  unfolding exec_civil pick reading_of
  exec-max = ground (arith, last_hour)

module _ {s t : Civil} {tp : TimePattern} (v : IsCivil t) (r : Reads t tp)
    (whole : gapless tp ≡ true) (le : AtMost s t) where
  abbrev first_civil : Civil
  first_civil = exec_civil tp s min_time_pattern

  first_year : first_civil.year ≤ t.year
  unfolding exec_civil pick
  first_year = ground arith

  first_month : month_start first_civil.year first_civil.month ≤ month_start t.year t.month
  unfolding exec_civil pick gapless
  first_month = ground (
    arith,
    month_start_mono first_civil.year t.year t.month t.month,
    month_start_mono first_civil.year t.year 1 t.month,
    first_year,
  )

  first_day : day_number first_civil ≤ day_number t
  unfolding exec_civil pick gapless day_number
  first_day = ground (arith, first_month)

  first_hour : day_number first_civil * 24 + first_civil.hour ≤ day_number t * 24 + t.hour
  unfolding exec_civil pick gapless day_number
  first_hour = ground (arith, first_day)

  -- The first reading of a file name is no later than any at which it was made.
  pub exec-min : reading_of first_civil ≤ reading_of t
  unfolding exec_civil pick reading_of
  exec-min = ground (arith, first_hour)
