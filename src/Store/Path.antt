-- ===== src/Store/Path.antt =====
-- internal/store/pattern.go: the patterns of log paths. A number of `timePattern` that is -1, as no
-- fragment has set it, is `none`; the numbers of `minTimePattern` and `maxTimePattern` are a reading.
pub mod Files
pub mod Fields
pub mod Listing
pub mod Select
pub mod Cover
pub mod Round
pub mod Parse
use mathlib.Core.Option
use ayd.Common.{
  ℕ, zero, suc, ◌+◌, ◌-◌, ◌*◌, ◌≤◌, Bool, true, false, not, ◌&&◌, ◌||◌, List, [], ◌∷◌, ◌++◌, Option,
  none, some, Bytes, bytes_eq, codes, ltb, leb, ◌==◌, if◌then◌else◌, length, take, drop,
}
use Prim.Native.Nat.{◌/◌, ◌%◌}
use ayd.Calendar.{Civil, Moment}

pub data Fragment : Type 0 where
  const_fragment : Bytes → Fragment
  year_fragment : Bool → Fragment
  month_fragment day_fragment hour_fragment minute_fragment : Fragment

abbrev pub digit : ℕ → ℕ
digit n = b'0' + n % 10

-- `t.Format("01")` and the like.
unfoldable pub two_digits : ℕ → Bytes
two_digits n = digit (n / 10) ∷ digit n ∷ []

-- `strconv.Itoa` of a number with at most `fuel` digits.
unfoldable pub itoa_digits : ℕ → ℕ → Bytes
itoa_digits zero n = []
itoa_digits (suc fuel) n =
    let front = itoa_digits fuel (n / 10) in
    if ltb n 10 then digit n ∷ [] else front ++ digit n ∷ []

-- An `int` has at most nineteen digits.
unfoldable pub itoa : ℕ → Bytes
itoa n = itoa_digits 19 n

unfoldable pub build_fragment : Fragment → Civil → Bytes
build_fragment (const_fragment c) t = c
build_fragment (year_fragment true) t = two_digits t.year
build_fragment (year_fragment false) t = itoa t.year
build_fragment month_fragment t = two_digits t.month
build_fragment day_fragment t = two_digits t.day
build_fragment hour_fragment t = two_digits t.hour
build_fragment minute_fragment t = two_digits t.minute

-- `Len`
unfoldable pub len : Fragment → ℕ
len (const_fragment c) = length c
len (year_fragment true) = 2
len (year_fragment false) = 4
len month_fragment = 2
len day_fragment = 2
len hour_fragment = 2
len minute_fragment = 2

unfoldable pub glob_fragment : Fragment → Bytes
glob_fragment (const_fragment c) = c
glob_fragment (year_fragment true) = codes "[0-9][0-9]"
glob_fragment (year_fragment false) = codes "[0-9][0-9][0-9][0-9]"
glob_fragment month_fragment = codes "[0-1][0-9]"
glob_fragment day_fragment = codes "[0-3][0-9]"
glob_fragment hour_fragment = codes "[0-2][0-9]"
glob_fragment minute_fragment = codes "[0-5][0-9]"

pub record TimePattern : Type 0 where
  pub year : Option ℕ
  pub month : Option ℕ
  pub day : Option ℕ
  pub hour : Option ℕ
  pub minute : Option ℕ

abbrev pub empty_time_pattern : TimePattern
empty_time_pattern = record { year = none; month = none; day = none; hour = none; minute = none }

abbrev pub min_time_pattern : Civil
min_time_pattern = record {
  year = 0;
  month = 1;
  day = 1;
  hour = 0;
  minute = 0;
  second = 0;
  nanosecond = 0;
}

abbrev pub max_time_pattern : Civil
max_time_pattern = record {
  year = 9999;
  month = 12;
  day = 31;
  hour = 23;
  minute = 59;
  second = 59;
  nanosecond = 999_999_999;
}

-- The decimal number that the digits continue, where they are digits.
unfoldable pub number_from : ℕ → Bytes → Option ℕ
number_from n [] = some n
number_from n (c ∷ s) =
    let rest = number_from (n * 10 + (c - b'0')) s in
    if leb b'0' c && leb c b'9' then rest else none

unfoldable pub unsigned : Bytes → Option ℕ
unsigned [] = none
unsigned (c ∷ s) = number_from 0 (c ∷ s)

-- A number with a minus sign: zero, or one that is negative.
abbrev pub negated : Option ℕ → Option ℕ
negated none = none
negated (some n) = if n == 0 then some 0 else none

-- `strconv.Atoi` on a short text. A negative number, which each caller refuses as it does an error,
-- is `none` too.
unfoldable pub atoi : Bytes → Option ℕ
atoi [] = none
atoi (c ∷ s) =
    if c == b'-' then negated (unsigned s) else if c == b'+' then unsigned s else unsigned (c ∷ s)

-- `err != nil || n < lo || hi < n`
unfoldable pub checked : ℕ → ℕ → Option ℕ → Option ℕ
checked lo hi none = none
checked lo hi (some n) = if ltb n lo || ltb hi n then none else some n

-- `if tp.Month >= 1 && tp.Month != n { return false }`
unfoldable pub agreed : Option ℕ → Option ℕ → Option ℕ
agreed old none = none
agreed none (some n) = some n
agreed (some o) (some n) = if not (o == n) then none else some n

abbrev pub year_of : Bool → Option ℕ → Option ℕ
year_of short none = none
year_of short (some n) = some (if short then n + 2000 else n)

unfoldable pub fill_time_pattern : Fragment → Bytes → TimePattern → Option TimePattern
fill_time_pattern (const_fragment c) s tp = if bytes_eq s c then some tp else none
fill_time_pattern (year_fragment short) s tp =
    Option.map (λ n. record tp { year = some n }) (agreed tp.year (year_of short (atoi s)))
fill_time_pattern month_fragment s tp =
    Option.map (λ n. record tp { month = some n }) (agreed tp.month (checked 1 12 (atoi s)))
fill_time_pattern day_fragment s tp =
    Option.map (λ n. record tp { day = some n }) (agreed tp.day (checked 1 31 (atoi s)))
fill_time_pattern hour_fragment s tp =
    Option.map (λ n. record tp { hour = some n }) (agreed tp.hour (checked 0 23 (atoi s)))
fill_time_pattern minute_fragment s tp =
    Option.map (λ n. record tp { minute = some n }) (agreed tp.minute (checked 0 59 (atoi s)))
