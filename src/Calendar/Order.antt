-- ===== src/Calendar/Order.antt =====
-- A later reading is of no earlier year, month, day or hour.
use ayd.Common.{ℕ, ◌+◌, ◌-◌, ◌*◌, ◌≤◌, ◌≡◌, arith, tests, ltb, Bool-cases, inl, inr}
use ayd.Calendar.{Civil, IsCivil, reading_of, day_number, month_start, days_in_month}
use ayd.Calendar.Months.{month_end-year, month_start_mono, month_end-month}

-- `a` begins no later than `b` in each unit of the calendar.
pub record AtMost (a b : Civil) : Type 0 where
  pub year_le : a.year ≤ b.year
  pub month_le : month_start a.year a.month ≤ month_start b.year b.month
  pub day_le : day_number a ≤ day_number b
  pub hour_le : day_number a * 24 + a.hour ≤ day_number b * 24 + b.hour

day_of_year : (a b : Civil) → IsCivil a → IsCivil b → day_number a ≤ day_number b → a.year ≤ b.year
unfolding day_number month_start
day_of_year a b va vb le = elim (Bool-cases (ltb b.year a.year)) [
  | inl lt ↦ absurd (omega (tests, month_end-year b.year a.year b.month (omega tests)))
  | inr ge ↦ omega tests
]

month_of_day :
    (y i j d e : ℕ)
    → 1 ≤ i
    → 1 ≤ j
    → j ≤ 12
    → 1 ≤ d
    → e ≤ days_in_month y j
    → month_start y i + (d - 1) ≤ month_start y j + (e - 1)
    → month_start y i ≤ month_start y j
month_of_day y i j d e lo lo' hi d_in e_in le = elim (Bool-cases (ltb j i)) [
  | inl lt ↦ omega (tests, month_end-month y j i lo' (omega tests))
  | inr ge ↦ month_start_mono y y i j (omega arith) lo (omega tests) (omega tests)
]

day_of_month :
    (a b : Civil)
    → IsCivil a
    → IsCivil b
    → day_number a ≤ day_number b
    → a.year ≤ b.year
    → month_start a.year a.month ≤ month_start b.year b.month
unfolding day_number month_start
day_of_month a b va vb le years = elim (Bool-cases (ltb a.year b.year)) [
  | inl lt ↦ omega (tests, month_end-year a.year b.year a.month (omega tests))
  | inr ge ↦
      let e : a.year ≡ b.year = omega tests in
      let le' : month_start b.year a.month + (a.day - 1)
          ≤ month_start b.year b.month + (b.day - 1) =
        rw e at le in
      rw e (
        month_of_day b.year a.month b.month a.day b.day va.month_in.0 vb.month_in.0 vb.month_in.1
          va.day_in.0 vb.day_in.1 le')
]

pub reading_of-AtMost :
    (a b : Civil) → IsCivil a → IsCivil b → reading_of a ≤ reading_of b → AtMost a b
unfolding reading_of
reading_of-AtMost a b va vb le =
    let days : day_number a ≤ day_number b = omega arith in
    let years = day_of_year a b va vb days in
    record {
      year_le = years;
      month_le = day_of_month a b va vb days years;
      day_le = days;
      hour_le = omega arith;
    }
