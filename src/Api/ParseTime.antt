-- ===== src/Api/ParseTime.antt =====
-- lib-ayd/time.go: how a text is read as a time. An index out of range is a `panic`.
pub mod Holds
pub mod Total
pub mod Round
pub mod Formats
pub mod Positive
use ayd.Common.{
  ℕ, zero, suc, ◌+◌, ◌-◌, ◌*◌, ◌≤◌, Bool, true, false, not, ◌&&◌, ◌||◌, List, [], ◌∷◌, Option, none,
  some, Bytes, ltb, leb, ◌==◌, if◌then◌else◌, get_elem?, length, codes,
}
use Prim.Native.Nat.{◌/◌, ◌%◌, ◌^◌}
use ayd.Calendar.{month_start, days_before_year}

-- What a parser returns with `true`, `reject` where it returns `false`, or a panic.
pub data Read {ℓ} (A : Type ℓ) : Type ℓ where
  value : A → Read A
  reject panic : Read A

infixl 5 ◌>>=◌
abbrev pub ◌>>=◌ {ℓ κ} : {A : Type ℓ} {B : Type κ} → Read A → (A → Read B) → Read B
value a >>= f = f a
reject >>= f = reject
panic >>= f = panic

-- Two parsers that both run, before their results are looked at.
abbrev pub both {ℓ κ} : {A : Type ℓ} {B : Type κ} → Read A → Read B → Read (A × B)
both (value a) (value b) = value (a, b)
both (value a) reject = reject
both (value a) panic = panic
both reject (value b) = reject
both reject reject = reject
both reject panic = panic
both panic b = panic

abbrev pub on_byte {ℓ} : {A : Type ℓ} → Option ℕ → (ℕ → Read A) → Read A
on_byte none f = panic
on_byte (some c) f = f c

-- `s[i]`
abbrev pub at {ℓ} : {A : Type ℓ} → Bytes → ℕ → (ℕ → Read A) → Read A
at s i f = on_byte (get_elem? s i) f

-- `s[len(s)-k]`
abbrev pub at_end {ℓ} : {A : Type ℓ} → Bytes → ℕ → (ℕ → Read A) → Read A
at_end s k f = if ltb (length s) k then panic else at s (length s - k) f

unfoldable pub is_not_digit : ℕ → Bool
is_not_digit c = ltb c b'0' || ltb b'9' c

-- A digit of `parse4digits` or `parse2digits`: what stands behind `||` is not read after another byte.
unfoldable pub digit_at : Bytes → ℕ → Read ℕ
digit_at s i = at s i (λ c. if is_not_digit c then reject else value (c - b'0'))

unfoldable pub parse_4_digits : Bytes → Read ℕ
parse_4_digits s = do
  value
      ((← digit_at s 0) * 1000 + (← digit_at s 1) * 100 + (← digit_at s 2) * 10 + (← digit_at s 3))

unfoldable pub parse_2_digits : Bytes → ℕ → Read ℕ
parse_2_digits s pos = do value ((← digit_at s pos) * 10 + (← digit_at s (pos + 1)))

unfoldable pub is_date_time_delim : ℕ → Bool
is_date_time_delim c = (c == b'T') || (c == b't') || (c == b' ') || (c == b'_')

pub record DateParts : Type 0 where
  pub year : ℕ
  pub month : ℕ
  pub day : ℕ
  pub hour_pos : ℕ

abbrev pub date_at : Bytes → (month_pos day_pos hour_pos : ℕ) → Read DateParts
date_at s month_pos day_pos hour_pos =
    both (parse_4_digits s) (both (parse_2_digits s month_pos) (parse_2_digits s day_pos))
    >>= λ (y, (m, d)). value (record { year = y; month = m; day = d; hour_pos = hour_pos })

-- `isDateTimeDelim(s[10]) && s[4] == '-' && s[7] == '-'`, and the positions that follow from it.
abbrev pub dashed_date : Bytes → Read DateParts
dashed_date s = at s 10 λ c.
    if not (is_date_time_delim c)
    then reject
    else at s 4 λ d.
      if not (d == b'-')
      then reject
      else at s 7 λ e. if not (e == b'-') then reject else date_at s 5 8 11

-- `parseDate`
unfoldable pub parse_date : Bytes → Read DateParts
parse_date s =
    if ltb (length s) 12
    then reject
    else at s 8 λ c. if is_date_time_delim c then date_at s 4 6 9 else dashed_date s

-- A location: UTC, seconds east or west of it, or the one that the caller gives.
pub data Zone : Type 0 where
  utc local : Zone
  east west : ℕ → Zone

abbrev pub signed : Bytes → ℕ → ℕ × ℕ → Read (Zone × ℕ)
signed s sign_pos (h, m) = at s sign_pos λ c.
    if c == b'+'
    then value (east (h * 3600 + m * 60), sign_pos)
    else if c == b'-'
    then value (west (h * 3600 + m * 60), sign_pos)
    else reject

-- `parseTimeZone`: the zone, and where it begins.
unfoldable pub parse_time_zone : Bytes → Read (Zone × ℕ)
parse_time_zone s =
    let n = length s in
    at_end s 1 λ z.
      if (z == b'Z') || (z == b'z')
      then value (utc, n - 1)
      else at_end s 3 λ c.
        if c == b':'
        then both (parse_2_digits s (n - 5)) (parse_2_digits s (n - 2)) >>= signed s (n - 6)
        else if (c == b'+') || (c == b'-')
        then (parse_2_digits s (n - 2) >>= λ h. signed s (n - 3) (h, 0))
        else both (parse_2_digits s (n - 4)) (parse_2_digits s (n - 2)) >>= signed s (n - 5)

abbrev pub second_ns : ℕ
second_ns = 1_000_000_000

pub record ClockParts : Type 0 where
  pub hour : ℕ
  pub minute : ℕ
  pub second : ℕ
  pub nsec : ℕ
  pub resolution : ℕ

abbrev pub clock : (hour minute second nsec resolution : ℕ) → ClockParts
clock h m s n r = record { hour = h; minute = m; second = s; nsec = n; resolution = r }

-- One digit of a fraction, 0 behind its end, with the resolution that it leaves.
unfoldable pub fraction_digit : Bytes → (pos end resolution : ℕ) → Read (ℕ × ℕ)
fraction_digit s pos end resolution =
    if ltb pos end
    then (digit_at s pos >>= λ d. value (d, resolution / 10))
    else value (0, resolution)

-- The loop over nine digits of a fraction, with `left` to go at `pos`.
unfoldable pub fraction : Bytes → (left pos end nsec resolution : ℕ) → Read (ℕ × ℕ)
fraction s zero pos end nsec resolution = value (nsec, resolution)
fraction s (suc left) pos end nsec resolution = fraction_digit s pos end resolution >>= λ (d, r).
    fraction s left (pos + 1) end (nsec * 10 + d) r

abbrev pub with_fraction : Bytes → (a b c start end : ℕ) → Read ClockParts
with_fraction s a b c start end =
    both (both (parse_2_digits s a) (both (parse_2_digits s b) (parse_2_digits s c)))
      (fraction s 9 start end 0 second_ns)
    >>= λ ((h, (m, sec)), (n, r)). value (clock h m sec n r)

abbrev pub with_seconds : Bytes → (a b c : ℕ) → Read ClockParts
with_seconds s a b c =
    both (parse_2_digits s a) (both (parse_2_digits s b) (parse_2_digits s c)) >>= λ (h, (m, sec)).
    value (clock h m sec 0 second_ns)

abbrev pub with_minutes : Bytes → (a b : ℕ) → Read ClockParts
with_minutes s a b = both (parse_2_digits s a) (parse_2_digits s b) >>= λ (h, m).
    value (clock h m 0 0 (60 * second_ns))

abbrev pub with_hour : Bytes → ℕ → Read ClockParts
with_hour s a = parse_2_digits s a >>= λ h. value (clock h 0 0 0 (3600 * second_ns))

-- `end-start > len("15:04:05.") && s[start+8] == '.'`
abbrev pub extended_fraction : Bytes → (start end : ℕ) → Read ClockParts
extended_fraction s start end =
    if not (ltb 9 (end - start))
    then reject
    else at s (start + 8) λ c.
      if not (c == b'.')
      then reject
      else with_fraction s start (start + 3) (start + 6) (start + 9) end

-- `end-start > len("150405.") && s[start+6] == '.'`, and else the test after it.
abbrev pub any_fraction : Bytes → (start end : ℕ) → Read ClockParts
any_fraction s start end =
    if not (ltb 7 (end - start))
    then reject
    else at s (start + 6) λ c.
      if c == b'.'
      then with_fraction s start (start + 2) (start + 4) (start + 7) end
      else extended_fraction s start end

-- `parseTime`. Where `end` is before `start`, their difference is none of the lengths.
unfoldable pub parse_time : Bytes → (start end : ℕ) → Read ClockParts
parse_time s start end =
    let n = end - start in
    if n == 8
    then with_seconds s start (start + 3) (start + 6)
    else if n == 6
    then with_seconds s start (start + 2) (start + 4)
    else if n == 5
    then with_minutes s start (start + 3)
    else if n == 4
    then with_minutes s start (start + 2)
    else if n == 2
    then with_hour s start
    else any_fraction s start end

-- The seconds from the start of year 0 to a reading, moved on by 400 years, after which the calendar
-- repeats itself: `time.Date` takes any month and day, and month 0 is the December before.
unfoldable pub moved_seconds : DateParts → ClockParts → ℕ
moved_seconds d c =
    let months = (d.year + 400) * 12 + d.month - 1 in
    let days = month_start (months / 12) (months % 12 + 1) + d.day - 1 in
    ((days * 24 + c.hour) * 60 + c.minute) * 60 + c.second

abbrev pub moved_by : ℕ
moved_by = 146_097 * 86_400

-- A `time.Time`: its reading, in nanoseconds from the start of year 0, and its location.
pub record ZonedTime : Type 0 where
  pub reading : ℕ
  pub zone : Zone

-- `time.Date`, and the test that its year is from 0 to 9999.
unfoldable pub date_in_range : DateParts → ClockParts → Zone → Read (ZonedTime × ℕ)
date_in_range d c zone =
    let seconds = moved_seconds d c in
    if ltb seconds moved_by || leb (moved_by + days_before_year 10_000 * 86_400) seconds
    then reject
    else value
        (record { reading = (seconds - moved_by) * second_ns + c.nsec; zone = zone }, c.resolution)

-- `if !ok { ... }` behind `parseTimeZone`: the default location, for the whole text.
abbrev pub zone_or_default : Bool → ℕ → Read (Zone × ℕ) → Read (Zone × ℕ)
zone_or_default has_default n (value z) = value z
zone_or_default has_default n reject = if has_default then value (local, n) else reject
zone_or_default has_default n panic = panic

-- `parseRFC3339`, with a default location or without.
unfoldable pub parse_rfc3339 : Bytes → Bool → Read (ZonedTime × ℕ)
parse_rfc3339 s has_default = parse_date s >>= λ d.
    zone_or_default has_default (length s) (parse_time_zone s) >>= λ (zone, end).
    parse_time s d.hour_pos end >>= λ c. date_in_range d c zone
