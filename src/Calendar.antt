-- ===== src/Calendar.antt =====
-- What the program uses of Go's calendar (package time): readings of a clock, and `time.Date`.
pub mod Months
pub mod Order
pub mod Clear
use ayd.Common.{
  ◌≡◌, ℕ, zero, suc, ◌+◌, ◌-◌, ◌*◌, ◌≤◌, ◌<◌, Bool, true, false, not, ◌&&◌, ◌||◌, ◌==◌,
  if◌then◌else◌,
}
use Prim.Native.Nat.{◌/◌, ◌%◌}

-- A reading of a clock: what `Year`, `Month`, `Day`, `Hour`, `Minute`, `Second` and `Nanosecond` give.
pub record Civil : Type 0 where
  pub year : ℕ
  pub month : ℕ
  pub day : ℕ
  pub hour : ℕ
  pub minute : ℕ
  pub second : ℕ
  pub nanosecond : ℕ

-- A `time.Location`, as what `time.Date` makes of a reading: the instant at which the clocks of the
-- location come to it. A reading counts nanoseconds from the start of year 0, an instant from when the
-- first clock of the world came there. Where clocks are put back two instants have one reading, and
-- where they are put forward a reading has none; `time.Date` then chooses one.
abbrev pub Location : Type 0
Location = ℕ → ℕ

-- A `time.Time`: its instant, by which `Before`, `After` and `Equal` compare, and what the clocks of
-- its location read then.
pub record Moment : Type 0 where
  pub civil : Civil
  pub location : Location
  pub instant : ℕ

-- The 29th of February.
unfoldable pub leap_day : ℕ → ℕ
leap_day y = if (y % 4 == 0 && not (y % 100 == 0)) || y % 400 == 0 then 1 else 0

-- Up to July the odd months have 31 days, and from August on the even ones.
unfoldable pub days_in_month : ℕ → ℕ → ℕ
days_in_month y m = if m == 2 then 28 + leap_day y else 30 + (m + m / 8) % 2

-- The days from the first day of year 0 to that of year `y`.
unfoldable pub days_before_year : ℕ → ℕ
days_before_year y = y * 365 + (y + 3) / 4 - (y + 99) / 100 + (y + 399) / 400

-- The days of the months before month `m`.
abbrev pub days_before_month : ℕ → ℕ → ℕ
days_before_month y zero = 0
days_before_month y (suc m) = if m == 0 then 0 else days_before_month y m + days_in_month y m

-- The days before the first of a month.
unfoldable pub month_start : ℕ → ℕ → ℕ
month_start y m = days_before_year y + days_before_month y m

unfoldable pub day_number : Civil → ℕ
day_number c = month_start c.year c.month + (c.day - 1)

-- A reading in nanoseconds, for a month from 1 to 12 and a day from 1 on: a day past the end of its
-- month is one of the next.
unfoldable pub reading_of : Civil → ℕ
reading_of c =
    (((day_number c * 24 + c.hour) * 60 + c.minute) * 60 + c.second) * 1_000_000_000 + c.nanosecond

-- `time.Date`
unfoldable pub date : Civil → Location → ℕ
unfolding reading_of
date c location = location (reading_of c)

-- The instant is the one that `time.Date` makes of its reading, which is not so for the second of two
-- instants with one reading.
abbrev pub IsSettled : Moment → Type 0
IsSettled t = t.instant ≡ date t.civil t.location

-- No change of clocks reaches the moment: earlier readings are of earlier instants, and later readings
-- of later ones.
pub record IsClear (t : Moment) : Type 0 where
  pub settled : IsSettled t
  pub readings_before : (n : ℕ) → n < reading_of t.civil → t.location n < t.instant
  pub readings_after : (n : ℕ) → reading_of t.civil < n → t.instant < t.location n

-- What every `time.Time` of a year from 0 on reads.
pub record IsCivil (c : Civil) : Type 0 where
  pub month_in : (1 ≤ c.month) × (c.month ≤ 12)
  pub day_in : (1 ≤ c.day) × (c.day ≤ days_in_month c.year c.month)
  pub hour_in : c.hour < 24
  pub minute_in : c.minute < 60
  pub second_in : c.second < 60
  pub nanosecond_in : c.nanosecond < 1_000_000_000
