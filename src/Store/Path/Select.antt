-- ===== src/Store/Path/Select.antt =====
-- internal/store/pattern.go: `Match` and `ListBetween` select the files of a period.
use mathlib.Core.List.{Memᴰ}
use ayd.Common.{
  ◌≤◌, true, false, List, [], ◌∷◌, Option, none, some, Bytes, bytes_eq, arith, ◌≡◌, refl, All, ltb,
  drop, length, Bool-cases, inl, inr,
}
use ayd.Calendar.{IsCivil, IsClear, IsSettled, Moment, reading_of, date}
use ayd.Calendar.Clear.{
  IsSettled-at, no_later_reading, no_earlier_reading, no_later_instant, no_earlier_instant,
}
use ayd.Calendar.Order.{reading_of-AtMost}
use ayd.Store.Path.{Fragment, TimePattern, empty_time_pattern, len}
use ayd.Store.Path.Files.{
  PathPattern, build, build_all, is_empty, filled, parse_fragments, parse_time_pattern, exec,
  overlaps, match_path, matching, list_between,
}
use ayd.Store.Path.Fields.{IsTimePattern, Bounded, fill_time_pattern-Bounded}
use ayd.Store.Path.Round.{Fits, marks, marks-Reads, Reads-empty, parse_time_pattern-build}
use ayd.Store.Path.Cover.{gapless, exec-max, exec-min}

filled-Bounded :
    (o : Option TimePattern) (rest : TimePattern → Option TimePattern)
    → Bounded o
    → ((tp : TimePattern) → IsTimePattern tp → Bounded (rest tp))
    → Bounded (filled o rest)
filled-Bounded none rest h keep = tt
filled-Bounded (some tp) rest h keep = keep tp h

parse_fragments-Bounded :
    (fs : List Fragment) (name : Bytes) (tp : TimePattern)
    → IsTimePattern tp
    → Bounded (parse_fragments fs name tp)
unfolding parse_fragments
parse_fragments-Bounded [] [] tp v = v
parse_fragments-Bounded [] (c ∷ name) tp v = tt
parse_fragments-Bounded (f ∷ fs) name tp v = elim (Bool-cases (ltb (length name) (len f))) [
  | inl short ↦ rw short tt
  | inr long ↦ rw long (
      filled-Bounded _ _ (fill_time_pattern-Bounded f _ tp v)
        (λ next h. parse_fragments-Bounded fs (drop (len f) name) next h))
]

-- Whatever the file is called: where `parseTimePattern` accepts its name, each number that it reads
-- is -1 or within its bounds, the month from 1 to 12, the day from 1 to 31, the hour below 24 and the
-- minute below 60.
pub parse_time_pattern-IsTimePattern :
    (p : PathPattern) (filename : Bytes) (tp : TimePattern)
    → parse_time_pattern p filename ≡ some tp
    → IsTimePattern tp
unfolding parse_time_pattern
parse_time_pattern-IsTimePattern p filename tp e =
    rw e at (parse_fragments-Bounded p.fragments filename empty_time_pattern (ground arith))

is_empty-build : (p : PathPattern) (t : Moment) → is_empty p ≡ true → build p t ≡ []
unfolding is_empty build build_all
is_empty-build p t = go p.fragments
  where
    go :
        (fs : List Fragment)
        → elim fs [ [] ↦ true | _ ∷ _ ↦ false ] ≡ true
        → build_all fs t.civil ≡ []
    go [] h = refl
    go (f ∷ fs) h = absurd (cc)

module _ {since until t : Moment} (p : PathPattern) (v : IsCivil t.civil)
    (v_since : IsCivil since.civil) (v_until : IsCivil until.civil)
    (fits : All (Fits t.civil) p.fragments) (year_in : t.civil.year ≤ 9999)
    (whole : gapless (marks p.fragments t.civil empty_time_pattern) ≡ true)
    (here : since.location ≡ t.location) (there : until.location ≡ t.location) (clear : IsClear t)
    (first : IsSettled since) (last : IsSettled until) (after : since.instant ≤ t.instant)
    (before : t.instant ≤ until.instant) where
  overlaps-marks : overlaps (some (marks p.fragments t.civil empty_time_pattern)) since until ≡ true
  unfolding overlaps exec date
  overlaps-marks =
      let tp = marks p.fragments t.civil empty_time_pattern in
      let reads = marks-Reads p.fragments t.civil empty_time_pattern (Reads-empty t.civil) in
      let from : reading_of since.civil ≤ reading_of t.civil =
        no_later_reading t clear _ (rw (← IsSettled-at since t here first) after) in
      let to : reading_of t.civil ≤ reading_of until.civil =
        no_earlier_reading t clear _ (rw (← IsSettled-at until t there last) before) in
      let top =
        no_earlier_instant t clear _
          (exec-max v year_in reads whole (reading_of-AtMost _ _ v v_until to)) in
      let bottom =
        no_later_instant t clear _
          (exec-min v reads whole (reading_of-AtMost _ _ v_since v from)) in
      rw (here, there) (ground arith)

  match_path-build : match_path p (build p t) since until ≡ true
  unfolding match_path
  match_path-build = elim (Bool-cases (is_empty p)) [
    | inl empty ↦ rw (empty, is_empty-build p t empty) (unfold bytes_eq in refl)
    | inr full ↦ rw (full, parse_time_pattern-build p t v fits) overlaps-marks
  ]

  matching-build :
      (xs : List Bytes) → Memᴰ (build p t) xs → Memᴰ (build p t) (matching p xs since until)
  unfolding matching
  matching-build [] h = elim h [ ]
  matching-build (x ∷ xs) (Memᴰ.head e) = rw (← e, match_path-build) (Memᴰ.head refl)
  matching-build (x ∷ xs) (Memᴰ.tail h) = elim (Bool-cases (match_path p x since until)) [
    | inl found ↦ rw found (Memᴰ.tail (matching-build xs h))
    | inr missed ↦ rw missed (matching-build xs h)
  ]

-- Where a file name was made at an instant of the period, and the file system lists it, `ListBetween`
-- selects it. The three times are of one location, whose clocks may be changed, but not near the
-- instant of the file name: `time.Date` takes each earlier reading for an earlier instant and each
-- later one for a later instant. The ends of the period are not the second of two instants with one
-- reading. The year has four digits where `%Y` is used and is of this century where `%y` is, and the
-- path leaves out no unit between two that it has.
pub list_between-build :
    (p : PathPattern) (xs : List Bytes) (since until t : Moment)
    → IsCivil t.civil
    → IsCivil since.civil
    → IsCivil until.civil
    → All (Fits t.civil) p.fragments
    → t.civil.year ≤ 9999
    → gapless (marks p.fragments t.civil empty_time_pattern) ≡ true
    → since.location ≡ t.location
    → until.location ≡ t.location
    → IsClear t
    → IsSettled since
    → IsSettled until
    → since.instant ≤ t.instant
    → t.instant ≤ until.instant
    → Memᴰ (build p t) xs
    → Memᴰ (build p t) (list_between p (some xs) since until)
unfolding list_between
list_between-build p xs since until t v vs vu fits year_in whole here there clear first last after
      before =
    matching-build p v vs vu fits year_in whole here there clear first last after before xs
