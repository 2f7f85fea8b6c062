-- ===== src/Calendar/Clear.antt =====
-- The order of instants and of readings, where no change of clocks is near.
use ayd.Common.{ℕ, ◌≤◌, ◌≡◌, ap, ◌∙◌, arith, tests, ltb, Bool-cases, inl, inr}
use ayd.Calendar.{Moment, IsSettled, IsClear, reading_of, date}

pub IsSettled-at :
    (m t : Moment)
    → m.location ≡ t.location
    → IsSettled m
    → m.instant ≡ t.location (reading_of m.civil)
unfolding date
IsSettled-at m t here settled = settled ∙ ap (λ l. l (reading_of m.civil)) here

module _ (t : Moment) (clear : IsClear t) where
  own : t.instant ≡ t.location (reading_of t.civil)
  unfolding date
  own = clear.settled

  pub no_later_reading : (n : ℕ) → t.location n ≤ t.instant → n ≤ reading_of t.civil
  no_later_reading n le = elim (Bool-cases (ltb (reading_of t.civil) n)) [
    | inl beyond ↦ absurd (omega (arith, clear.readings_after n (omega tests)))
    | inr within ↦ omega tests
  ]

  pub no_earlier_reading : (n : ℕ) → t.instant ≤ t.location n → reading_of t.civil ≤ n
  no_earlier_reading n le = elim (Bool-cases (ltb n (reading_of t.civil))) [
    | inl before ↦ absurd (omega (arith, clear.readings_before n (omega tests)))
    | inr within ↦ omega tests
  ]

  pub no_later_instant : (n : ℕ) → n ≤ reading_of t.civil → t.location n ≤ t.instant
  no_later_instant n le = elim (Bool-cases (ltb n (reading_of t.civil))) [
    | inl before ↦ omega (arith, clear.readings_before n (omega tests))
    | inr same ↦ let e : reading_of t.civil ≡ n = omega tests in rw (← e, ← own) (omega arith)
  ]

  pub no_earlier_instant : (n : ℕ) → reading_of t.civil ≤ n → t.instant ≤ t.location n
  no_earlier_instant n le = elim (Bool-cases (ltb (reading_of t.civil) n)) [
    | inl beyond ↦ omega (arith, clear.readings_after n (omega tests))
    | inr same ↦ let e : reading_of t.civil ≡ n = omega tests in rw (← e, ← own) (omega arith)
  ]
