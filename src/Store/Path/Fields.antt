-- ===== src/Store/Path/Fields.antt =====
-- internal/store/pattern.go: `FillTimePattern` reads what `Build` writes, and keeps its bounds.
use mathlib.Core.Option
use ayd.Common.{
  ℕ, suc, ◌+◌, ◌*◌, ◌≤◌, ◌<◌, [], ◌∷◌, ◌++◌, Option, none, some, Bytes, arith, ◌≡◌, refl, ap,
}
use Prim.Native.Nat.{◌/◌, ◌%◌}
use ayd.Store.Path.{
  Fragment, const_fragment, year_fragment, month_fragment, day_fragment, hour_fragment,
  minute_fragment, TimePattern, two_digits, digit, itoa, itoa_digits, atoi, unsigned, number_from,
  checked, agreed, fill_time_pattern,
}

-- The number is not set, or it is from `lo` to `hi`.
abbrev pub Within : ℕ → ℕ → Option ℕ → Type 0
Within lo hi none = Unit
Within lo hi (some n) = (lo ≤ n) × (n ≤ hi)

pub record IsTimePattern (tp : TimePattern) : Type 0 where
  pub month_in : Within 1 12 tp.month
  pub day_in : Within 1 31 tp.day
  pub hour_in : Within 0 23 tp.hour
  pub minute_in : Within 0 59 tp.minute

checked-Within : (lo hi : ℕ) (o : Option ℕ) → Within lo hi (checked lo hi o)
unfolding checked
checked-Within lo hi none = tt
checked-Within lo hi (some n) = ground arith

agreed-Within : (lo hi : ℕ) (old o : Option ℕ) → Within lo hi o → Within lo hi (agreed old o)
unfolding agreed
agreed-Within lo hi old none h = tt
agreed-Within lo hi none (some n) h = h
agreed-Within lo hi (some m) (some n) h = ground arith

-- The pattern, where there is one, is within its bounds.
abbrev pub Bounded : Option TimePattern → Type 0
Bounded none = Unit
Bounded (some tp) = IsTimePattern tp

checked_set-Bounded :
    (set : ℕ → TimePattern) (lo hi : ℕ) (old : Option ℕ) (s : Bytes)
    → ((n : ℕ) → lo ≤ n → n ≤ hi → IsTimePattern (set n))
    → Bounded (Option.map set (agreed old (checked lo hi (atoi s))))
checked_set-Bounded set lo hi old s keep =
    go (agreed old (checked lo hi (atoi s)))
      (agreed-Within lo hi old _ (checked-Within lo hi (atoi s)))
  where
    go : (o : Option ℕ) → Within lo hi o → Bounded (Option.map set o)
    go none h = tt
    go (some n) h = keep n h.0 h.1

set_year-Bounded :
    (tp : TimePattern) (o : Option ℕ)
    → IsTimePattern tp
    → Bounded (Option.map (λ n. record tp { year = some n }) o)
set_year-Bounded tp none v = tt
set_year-Bounded tp (some n) v = ground arith

pub fill_time_pattern-Bounded :
    (f : Fragment) (s : Bytes) (tp : TimePattern)
    → IsTimePattern tp
    → Bounded (fill_time_pattern f s tp)
unfolding fill_time_pattern
fill_time_pattern-Bounded (const_fragment c) s tp v = ground arith
fill_time_pattern-Bounded (year_fragment short) s tp v = set_year-Bounded tp _ v
fill_time_pattern-Bounded month_fragment s tp v =
    checked_set-Bounded _ 1 12 tp.month s (λ n lo hi. ground arith)
fill_time_pattern-Bounded day_fragment s tp v =
    checked_set-Bounded _ 1 31 tp.day s (λ n lo hi. ground arith)
fill_time_pattern-Bounded hour_fragment s tp v =
    checked_set-Bounded _ 0 23 tp.hour s (λ n lo hi. ground arith)
fill_time_pattern-Bounded minute_fragment s tp v =
    checked_set-Bounded _ 0 59 tp.minute s (λ n lo hi. ground arith)

number_from-digit :
    (a n : ℕ) (s : Bytes) → number_from a (digit n ∷ s) ≡ number_from (a * 10 + n % 10) s
unfolding number_from
number_from-digit a n s = ground arith

-- Digits are read as the number that they are.
atoi-digit : (n : ℕ) (s : Bytes) → atoi (digit n ∷ s) ≡ number_from (n % 10) s
unfolding atoi unsigned
atoi-digit n s = ground (arith, number_from-digit 0 n s)

pub atoi-two_digits : (n : ℕ) → atoi (two_digits n) ≡ some (n % 100)
unfolding two_digits number_from
atoi-two_digits n =
    rw (atoi-digit (n / 10) (digit n ∷ []), number_from-digit) (ap some (omega arith))

itoa_digits_short : (fuel n : ℕ) → n < 10 → itoa_digits (suc fuel) n ≡ digit n ∷ []
unfolding itoa_digits
itoa_digits_short fuel n h = ground arith

itoa_digits_long :
    (fuel n : ℕ) → 10 ≤ n → itoa_digits (suc fuel) n ≡ itoa_digits fuel (n / 10) ++ digit n ∷ []
unfolding itoa_digits
itoa_digits_long fuel n h = ground arith

pub itoa_four :
    (n : ℕ)
    → 1000 ≤ n
    → n < 10000
    → itoa n ≡ digit (n / 10 / 10 / 10) ∷ digit (n / 10 / 10) ∷ digit (n / 10) ∷ digit n ∷ []
unfolding itoa
itoa_four n lo hi =
    rw
      (
        itoa_digits_long 18 n (omega arith),
        itoa_digits_long 17 (n / 10) (omega arith),
        itoa_digits_long 16 (n / 10 / 10) (omega arith),
        itoa_digits_short 15 (n / 10 / 10 / 10) (omega arith),
      )
      refl

pub atoi-itoa : (n : ℕ) → 1000 ≤ n → n < 10000 → atoi (itoa n) ≡ some n
unfolding number_from
atoi-itoa n lo hi =
    rw (itoa_four n lo hi, atoi-digit, number_from-digit, number_from-digit, number_from-digit)
      (ap some (omega arith))
