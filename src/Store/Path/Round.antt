-- ===== src/Store/Path/Round.antt =====
-- internal/store/pattern.go: `parseTimePattern` reads back what `Build` wrote.
use mathlib.Core.Option
use ayd.Common.{
  ℕ, ◌+◌, ◌≤◌, ◌<◌, true, false, List, [], ◌∷◌, ◌++◌, Option, none, some, bytes_eq_refl, ltb,
  length, arith, ◌≡◌, refl, All, take-append, drop-append, length-append,
}
use Prim.Native.Nat.{◌%◌}
use ayd.Calendar.{Civil, IsCivil, Moment}
use ayd.Calendar.Months.{days_in_month-le}
use ayd.Store.Path.{
  Fragment, const_fragment, year_fragment, month_fragment, day_fragment, hour_fragment,
  minute_fragment, TimePattern, build_fragment, len, two_digits, atoi, empty_time_pattern, checked,
  agreed, fill_time_pattern,
}
use ayd.Store.Path.Files.{PathPattern, build, build_all, parse_fragments, parse_time_pattern}
use ayd.Store.Path.Fields.{atoi-two_digits, atoi-itoa, itoa_four}

-- The number is not set, or it is `n`.
abbrev pub Says : ℕ → Option ℕ → Type 0
Says n none = Unit
Says n (some m) = m ≡ n

-- Each number that is set is that of the reading.
pub record Reads (t : Civil) (tp : TimePattern) : Type 0 where
  pub year_is : Says t.year tp.year
  pub month_is : Says t.month tp.month
  pub day_is : Says t.day tp.day
  pub hour_is : Says t.hour tp.hour
  pub minute_is : Says t.minute tp.minute

-- A year has to have four digits for `%Y`, and to be of this century for `%y`.
abbrev pub Fits : Civil → Fragment → Type 0
Fits t (year_fragment true) = (2000 ≤ t.year) × (t.year ≤ 2099)
Fits t (year_fragment false) = (1000 ≤ t.year) × (t.year ≤ 9999)
Fits t f = Unit

-- The pattern with the number that a fragment stands for.
unfoldable pub mark : Fragment → Civil → TimePattern → TimePattern
mark (const_fragment c) t tp = tp
mark (year_fragment short) t tp = record tp { year = some t.year }
mark month_fragment t tp = record tp { month = some t.month }
mark day_fragment t tp = record tp { day = some t.day }
mark hour_fragment t tp = record tp { hour = some t.hour }
mark minute_fragment t tp = record tp { minute = some t.minute }

-- The numbers that the fragments stand for.
unfoldable pub marks : List Fragment → Civil → TimePattern → TimePattern
marks [] t tp = tp
marks (f ∷ fs) t tp = marks fs t (mark f t tp)

mark-Reads : (f : Fragment) (t : Civil) (tp : TimePattern) → Reads t tp → Reads t (mark f t tp)
unfolding mark
mark-Reads (const_fragment c) t tp r = r
mark-Reads (year_fragment short) t tp r = ground arith
mark-Reads month_fragment t tp r = ground arith
mark-Reads day_fragment t tp r = ground arith
mark-Reads hour_fragment t tp r = ground arith
mark-Reads minute_fragment t tp r = ground arith

pub marks-Reads :
    (fs : List Fragment) (t : Civil) (tp : TimePattern) → Reads t tp → Reads t (marks fs t tp)
unfolding marks
marks-Reads [] t tp r = r
marks-Reads (f ∷ fs) t tp r = marks-Reads fs t (mark f t tp) (mark-Reads f t tp r)

length-build_fragment : (f : Fragment) (t : Civil) → Fits t f → length (build_fragment f t) ≡ len f
unfolding build_fragment len two_digits
length-build_fragment (year_fragment false) t fits = rw (itoa_four t.year fits.0 (omega arith)) refl
length-build_fragment (year_fragment true) t fits = refl
length-build_fragment _ t fits = refl

agreed-Says : (n : ℕ) (old : Option ℕ) → Says n old → agreed old (some n) ≡ some n
unfolding agreed
agreed-Says n none h = refl
agreed-Says n (some m) h = ground arith

checked_same : (lo hi n : ℕ) → lo ≤ n → n ≤ hi → checked lo hi (some n) ≡ some n
unfolding checked
checked_same lo hi n l h = ground arith

fill_checked :
    (set : ℕ → TimePattern) (lo hi n : ℕ) (old : Option ℕ)
    → lo ≤ n
    → n ≤ hi
    → hi < 100
    → Says n old
    → Option.map set (agreed old (checked lo hi (atoi (two_digits n)))) ≡ some (set n)
fill_checked set lo hi n old l h two says =
    let whole : n % 100 ≡ n = omega arith in
    rw (atoi-two_digits n, whole, checked_same lo hi n l h, agreed-Says n old says) refl

century : (y : ℕ) → 2000 ≤ y → y ≤ 2099 → y % 100 + 2000 ≡ y
century y lo hi = omega arith

fill-build :
    (f : Fragment) (t : Civil) (tp : TimePattern)
    → IsCivil t
    → Fits t f
    → Reads t tp
    → fill_time_pattern f (build_fragment f t) tp ≡ some (mark f t tp)
unfolding fill_time_pattern build_fragment mark
fill-build (const_fragment c) t tp v fits r = rw (bytes_eq_refl c) refl
fill-build (year_fragment true) t tp v fits r =
    rw (atoi-two_digits t.year, century t.year fits.0 fits.1, agreed-Says t.year tp.year r.year_is)
      refl
fill-build (year_fragment false) t tp v fits r =
    rw (atoi-itoa t.year fits.0 (omega arith), agreed-Says t.year tp.year r.year_is) refl
fill-build month_fragment t tp v fits r =
    fill_checked _ 1 12 t.month tp.month v.month_in.0 v.month_in.1 (omega arith) r.month_is
fill-build day_fragment t tp v fits r =
    fill_checked _ 1 31 t.day tp.day v.day_in.0 (omega (arith, days_in_month-le t.year t.month))
      (omega arith) r.day_is
fill-build hour_fragment t tp v fits r =
    fill_checked _ 0 23 t.hour tp.hour (omega arith) (omega arith) (omega arith) r.hour_is
fill-build minute_fragment t tp v fits r =
    fill_checked _ 0 59 t.minute tp.minute (omega arith) (omega arith) (omega arith) r.minute_is

parse_fragments-build :
    (fs : List Fragment) (t : Civil) (tp : TimePattern)
    → IsCivil t
    → All (Fits t) fs
    → Reads t tp
    → parse_fragments fs (build_all fs t) tp ≡ some (marks fs t tp)
unfolding parse_fragments build_all marks
parse_fragments-build [] t tp v fits r = refl
parse_fragments-build (f ∷ fs) t tp v fits r =
    let own = build_fragment f t in
    let size = length-build_fragment f t fits.0 in
    let long : ltb (length (own ++ build_all fs t)) (len f) ≡ false =
      ground (arith, size, length-append own (build_all fs t)) in
    rw
      (
        long,
        ← size,
        take-append own (build_all fs t),
        drop-append own (build_all fs t),
        fill-build f t tp v fits.0 r,
      )
      (parse_fragments-build fs t (mark f t tp) v fits.1 (mark-Reads f t tp r))

pub Reads-empty : (t : Civil) → Reads t empty_time_pattern
Reads-empty t = ground arith

-- The name that `Build` makes of a time is read back by `parseTimePattern`: each number of the
-- fragments is that of the time, and no other is set. The year has four digits where `%Y` is used,
-- and is of this century where `%y` is.
pub parse_time_pattern-build :
    (p : PathPattern) (t : Moment)
    → IsCivil t.civil
    → All (Fits t.civil) p.fragments
    → parse_time_pattern p (build p t) ≡ some (marks p.fragments t.civil empty_time_pattern)
unfolding parse_time_pattern build
parse_time_pattern-build p t v fits =
    parse_fragments-build p.fragments t.civil empty_time_pattern v fits (Reads-empty t.civil)
