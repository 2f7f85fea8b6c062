-- ===== src/Api/ParseTime/Round.antt =====
-- lib-ayd/time.go: a time that is written in the form of RFC 3339 is read back.
use ayd.Common.{
  ℕ, zero, suc, ◌+◌, ◌-◌, ◌*◌, ◌≤◌, ◌<◌, Bool, false, [], ◌∷◌, some, Bytes, ltb, leb, get_elem?,
  ◌≡◌, refl, ap, arith,
}
use Prim.Native.Nat.{◌/◌, ◌%◌}
use ayd.Calendar.{
  Civil, IsCivil, reading_of, day_number, month_start, days_before_year, days_before_month,
  days_in_month, leap_day,
}
use ayd.Calendar.Months.{month_end-year, years_mono, days_in_month-le}
use ayd.Api.ParseTime.{
  value, is_not_digit, digit_at, parse_4_digits, parse_2_digits, is_date_time_delim, DateParts,
  parse_date, utc, clock, second_ns, parse_time_zone, parse_time, moved_seconds, moved_by,
  date_in_range, parse_rfc3339,
}

abbrev pub digit : ℕ → ℕ
digit n = b'0' + n % 10

-- The text of a reading in UTC, in the layout of `time.RFC3339`.
unfoldable pub rfc3339 : Civil → Bytes
rfc3339 c =
    digit (c.year / 1000)
    ∷ digit (c.year / 100)
    ∷ digit (c.year / 10)
    ∷ digit c.year
    ∷ b'-'
    ∷ digit (c.month / 10)
    ∷ digit c.month
    ∷ b'-'
    ∷ digit (c.day / 10)
    ∷ digit c.day
    ∷ b'T'
    ∷ digit (c.hour / 10)
    ∷ digit c.hour
    ∷ b':'
    ∷ digit (c.minute / 10)
    ∷ digit c.minute
    ∷ b':'
    ∷ digit (c.second / 10)
    ∷ digit c.second
    ∷ b'Z'
    ∷ []

digit_at-digit :
    (s : Bytes) (i n : ℕ) → get_elem? s i ≡ some (digit n) → digit_at s i ≡ value (n % 10)
unfolding digit_at is_not_digit
digit_at-digit s i n e = rw e (ground arith)

parse_2_digits-digit :
    (s : Bytes) (i n : ℕ)
    → n < 100
    → get_elem? s i ≡ some (digit (n / 10))
    → get_elem? s (i + 1) ≡ some (digit n)
    → parse_2_digits s i ≡ value n
unfolding parse_2_digits
parse_2_digits-digit s i n h e f =
    rw (digit_at-digit s i (n / 10) e, digit_at-digit s (i + 1) n f) (ap value (omega arith))

parse_4_digits-digit :
    (s : Bytes) (n : ℕ)
    → n < 10000
    → get_elem? s 0 ≡ some (digit (n / 1000))
    → get_elem? s 1 ≡ some (digit (n / 100))
    → get_elem? s 2 ≡ some (digit (n / 10))
    → get_elem? s 3 ≡ some (digit n)
    → parse_4_digits s ≡ value n
unfolding parse_4_digits
parse_4_digits-digit s n h a b c d =
    rw
      (
        digit_at-digit s 0 (n / 1000) a,
        digit_at-digit s 1 (n / 100) b,
        digit_at-digit s 2 (n / 10) c,
        digit_at-digit s 3 n d,
      )
      (ap value (omega arith))

is_date_time_delim-digit : (n : ℕ) → is_date_time_delim (digit n) ≡ false
unfolding is_date_time_delim
is_date_time_delim-digit n = ground arith

leap_day_later : (y : ℕ) → leap_day (y + 400) ≡ leap_day y
unfolding leap_day
leap_day_later y = ground arith

days_before_month_later : (y m : ℕ) → days_before_month (y + 400) m ≡ days_before_month y m
unfolding days_in_month
days_before_month_later y zero = refl
days_before_month_later y (suc m) = rw (leap_day_later y, days_before_month_later y m) refl

month_start_later : (y m : ℕ) → month_start (y + 400) m ≡ month_start y m + 146097
unfolding month_start days_before_year
month_start_later y m = rw (days_before_month_later y m) (omega arith)

module _ (c : Civil) (v : IsCivil c) (year_in : c.year ≤ 9999) where
  abbrev written : DateParts
  written = record { year = c.year; month = c.month; day = c.day; hour_pos = 11 }

  parse_date-rfc3339 : parse_date (rfc3339 c) ≡ value written
  unfolding parse_date rfc3339 is_date_time_delim
  parse_date-rfc3339 =
      rw
        (
          is_date_time_delim-digit (c.day / 10),
          parse_4_digits-digit (rfc3339 c) c.year (omega arith) refl refl refl refl,
          parse_2_digits-digit (rfc3339 c) 5 c.month (omega arith) refl refl,
          parse_2_digits-digit (rfc3339 c) 8 c.day (omega (arith, days_in_month-le c.year c.month))
              refl refl,
        )
        refl

  parse_time-rfc3339 :
      parse_time (rfc3339 c) 11 19 ≡ value (clock c.hour c.minute c.second 0 second_ns)
  unfolding parse_time rfc3339
  parse_time-rfc3339 =
      rw
        (
          parse_2_digits-digit (rfc3339 c) 11 c.hour (omega arith) refl refl,
          parse_2_digits-digit (rfc3339 c) 14 c.minute (omega arith) refl refl,
          parse_2_digits-digit (rfc3339 c) 17 c.second (omega arith) refl refl,
        )
        refl

  parse_time_zone-rfc3339 : parse_time_zone (rfc3339 c) ≡ value (utc, 19)
  unfolding parse_time_zone rfc3339
  parse_time_zone-rfc3339 = refl

  abbrev seconds : ℕ
  seconds = ((day_number c * 24 + c.hour) * 60 + c.minute) * 60 + c.second

  moved_seconds-written :
      moved_seconds written (clock c.hour c.minute c.second 0 second_ns) ≡ seconds + moved_by
  unfolding moved_seconds day_number
  moved_seconds-written =
      let years : ((c.year + 400) * 12 + c.month - 1) / 12 ≡ c.year + 400 = omega arith in
      let months : ((c.year + 400) * 12 + c.month - 1) % 12 + 1 ≡ c.month = omega arith in
      rw (years, months, month_start_later c.year c.month) (omega arith)

  in_range : day_number c < days_before_year 10_000
  unfolding day_number
  in_range = omega (
    arith,
    month_end-year c.year (suc c.year) c.month (omega arith) v.month_in.0 v.month_in.1,
    years_mono (suc c.year) 10_000 (omega arith),
  )

  -- A time of a year up to 9999 and of whole seconds, written in the layout of RFC 3339 in UTC, is read
  -- as that time with a resolution of a second.
  pub parse_rfc3339-rfc3339 :
      (has_default : Bool)
      → c.nanosecond ≡ 0
      → parse_rfc3339 (rfc3339 c) has_default
        ≡ value (record { reading = reading_of c; zone = utc }, second_ns)
  unfolding parse_rfc3339 date_in_range reading_of
  parse_rfc3339-rfc3339 has_default whole =
      let after : ltb (seconds + moved_by) moved_by ≡ false = ground arith in
      let before : leb (moved_by + days_before_year 10_000 * 86_400) (seconds + moved_by) ≡ false =
        ground (arith, in_range) in
      let same : (seconds + moved_by - moved_by) * second_ns + 0 ≡ reading_of c = omega arith in
      rw
        (
          parse_date-rfc3339, parse_time_zone-rfc3339, parse_time-rfc3339, moved_seconds-written,
          after, before, same,
        )
        refl
