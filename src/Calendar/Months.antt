-- ===== src/Calendar/Months.antt =====
-- The order of readings: a later reading is of no earlier year, month, day or hour.
use native.Mathlib.Nat.{le_refl}
use ayd.Common.{ℕ, zero, suc, ◌+◌, ◌-◌, ◌≤◌, ◌<◌, ◌≡◌, arith, tests, ltb, Bool-cases, inl, inr}
use ayd.Calendar.{month_start, days_before_month, days_before_year, days_in_month, leap_day}

year_after : (y : ℕ) → days_before_year (suc y) ≡ days_before_year y + 365 + leap_day y
unfolding days_before_year leap_day
year_after y = ground arith

-- What grows at every step from `i` on is at least as great `k` steps later.
grown : (f : ℕ → ℕ) (i k j : ℕ) → ((n : ℕ) → i ≤ n → f n ≤ f (suc n)) → i + k ≡ j → f i ≤ f j
grown f i zero j step e = let same : i ≡ j = omega arith in rw same (le_refl _)
grown f i (suc k) zero step e = absurd (omega arith)
grown f i (suc k) (suc j) step e =
    omega (arith, grown f i k j step (omega arith), step j (omega arith))

pub years_mono : (y z : ℕ) → y ≤ z → days_before_year y ≤ days_before_year z
years_mono y z h =
    grown days_before_year y (z - y) z (λ n le. omega (arith, year_after n)) (omega arith)

month_after :
    (y m : ℕ) → 1 ≤ m → days_before_month y (suc m) ≡ days_before_month y m + days_in_month y m
month_after y m h = ground arith

months_mono : (y i j : ℕ) → 1 ≤ i → i ≤ j → days_before_month y i ≤ days_before_month y j
months_mono y i j lo h =
    grown (days_before_month y) i (j - i) j (λ n le. omega (arith, month_after y n (omega arith)))
      (omega arith)

year_of_months : (y : ℕ) → days_before_month y 13 ≡ 365 + leap_day y
unfolding days_in_month
year_of_months y = ground arith

-- A month lies within its year.
month_end :
    (y m : ℕ) → 1 ≤ m → m ≤ 12 → days_before_month y m + days_in_month y m ≤ 365 + leap_day y
month_end y m lo hi = omega (
  arith,
  month_after y m lo,
  months_mono y (suc m) 13 (omega arith) (omega arith),
  year_of_months y,
)

-- A month of an earlier year ends before the later year begins.
pub month_end-year :
    (y z m : ℕ) → y < z → 1 ≤ m → m ≤ 12 → month_start y m + days_in_month y m ≤ days_before_year z
unfolding month_start
month_end-year y z m lt lo hi =
    omega (arith, month_end y m lo hi, year_after y, years_mono (suc y) z lt)

-- The start of a month rises with the year, and within a year with the month.
pub month_start_mono :
    (y z i j : ℕ) → y ≤ z → 1 ≤ i → i ≤ j → i ≤ 12 → month_start y i ≤ month_start z j
unfolding month_start
month_start_mono y z i j le lo h hi = elim (Bool-cases (ltb y z)) [
  | inl lt ↦ omega (tests, month_end-year y z i (omega tests) lo hi, lt)
  | inr same ↦ let e : y ≡ z = omega tests in rw e (omega (arith, months_mono z i j lo h))
]

-- A month ends no later than a later month of the year begins.
pub month_end-month :
    (y i j : ℕ) → 1 ≤ i → i < j → month_start y i + days_in_month y i ≤ month_start y j
unfolding month_start
month_end-month y i j lo lt =
    omega (arith, month_after y i lo, months_mono y (suc i) j (omega arith) lt)

pub days_in_month-le : (y m : ℕ) → days_in_month y m ≤ 31
unfolding days_in_month leap_day
days_in_month-le y m = ground arith
