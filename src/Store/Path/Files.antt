-- ===== src/Store/Path/Files.antt =====
-- internal/store/pattern.go: the names of log files. `filepath.Glob` is what the file system answers:
-- the names that it gives are a parameter, and none at all where it fails.
use ayd.Common.{
  ℕ, Bool, true, false, not, ◌&&◌, ◌||◌, List, [], ◌∷◌, ◌++◌, Option, none, some, Bytes, bytes_eq,
  ltb, if◌then◌else◌, length, take, drop,
}
use ayd.Calendar.{Civil, Moment, date}
use ayd.Store.Path.{
  Fragment, TimePattern, empty_time_pattern, min_time_pattern, max_time_pattern, build_fragment,
  glob_fragment, len, fill_time_pattern,
}

pub record PathPattern : Type 0 where
  pub pattern : Bytes
  pub fragments : List Fragment

unfoldable pub is_empty : PathPattern → Bool
is_empty p = elim p.fragments [ [] ↦ true | _ ∷ _ ↦ false ]

unfoldable pub build_all : List Fragment → Civil → Bytes
build_all [] t = []
build_all (f ∷ fs) t = build_fragment f t ++ build_all fs t

-- `PathPattern.Build`
unfoldable pub build : PathPattern → Moment → Bytes
build p t = build_all p.fragments t.civil

unfoldable pub glob_all : List Fragment → Bytes
glob_all [] = []
glob_all (f ∷ fs) = glob_fragment f ++ glob_all fs

-- `PathPattern.Glob`
unfoldable pub glob : PathPattern → Bytes
glob p = glob_all p.fragments

-- `if !f.FillTimePattern(...) { return tp, false }`, with the rest of the loop.
abbrev pub filled : Option TimePattern → (TimePattern → Option TimePattern) → Option TimePattern
filled none rest = none
filled (some tp) rest = rest tp

-- The loop of `parseTimePattern` over the fragments; `name` is `filename[l:]`.
unfoldable pub parse_fragments : List Fragment → Bytes → TimePattern → Option TimePattern
parse_fragments [] [] tp = some tp
parse_fragments [] (c ∷ name) tp = none
parse_fragments (f ∷ fs) name tp =
    let rest = λ (next : TimePattern). parse_fragments fs (drop (len f) name) next in
    if ltb (length name) (len f)
    then none
    else filled (fill_time_pattern f (take (len f) name) tp) rest

-- `parseTimePattern`, with `none` for what it returns with `false`.
unfoldable pub parse_time_pattern : PathPattern → Bytes → Option TimePattern
parse_time_pattern p filename = parse_fragments p.fragments filename empty_time_pattern

-- `p.Minute >= 0` and the like.
abbrev pub is_set : Option ℕ → Bool
is_set none = false
is_set (some n) = true

-- One number of `Exec`: that of the pattern, else that of the time where a smaller unit is given
-- (`useCopy`), else that of the base.
unfoldable pub pick : Option ℕ → Bool → ℕ → ℕ → ℕ
pick (some n) use_copy copy base = n
pick none use_copy copy base = if use_copy then copy else base

-- The assignments of `Exec`, from the smallest unit on.
unfoldable pub exec_civil : TimePattern → Civil → Civil → Civil
exec_civil p t base =
    let hour_copy = is_set p.minute in
    let day_copy = is_set p.hour || hour_copy in
    let month_copy = is_set p.day || day_copy in
    let year_copy = is_set p.month || month_copy in
    record base {
      minute = pick p.minute false t.minute base.minute;
      hour = pick p.hour hour_copy t.hour base.hour;
      day = pick p.day day_copy t.day base.day;
      month = pick p.month month_copy t.month base.month;
      year = pick p.year year_copy t.year base.year;
    }

-- `timePattern.Exec`, as the instant of the `time.Time` that it returns.
unfoldable pub exec : TimePattern → Moment → Civil → ℕ
exec p t base = date (exec_civil p t.civil base) t.location

-- `!since.After(max) && !min.After(until)`
unfoldable pub overlaps : Option TimePattern → Moment → Moment → Bool
overlaps none since until = false
overlaps (some tp) since until =
    not (ltb (exec tp until max_time_pattern) since.instant)
    && not (ltb until.instant (exec tp since min_time_pattern))

-- `PathPattern.Match`
unfoldable pub match_path : PathPattern → Bytes → Moment → Moment → Bool
match_path p filename since until =
    if is_empty p
    then bytes_eq filename []
    else overlaps (parse_time_pattern p filename) since until

-- The loop of `ListBetween`.
unfoldable pub matching : PathPattern → List Bytes → Moment → Moment → List Bytes
matching p [] since until = []
matching p (x ∷ xs) since until =
    let rest = matching p xs since until in if match_path p x since until then x ∷ rest else rest

-- `ListBetween`, on the answer of `filepath.Glob(p.Glob())`.
unfoldable pub list_between : PathPattern → Option (List Bytes) → Moment → Moment → List Bytes
list_between p none since until = []
list_between p (some xs) since until = matching p xs since until
