-- ===== src/Api/ParseTime/Formats.antt =====
-- lib-ayd/time.go: `ParseTimeWithResolution`. The parser of package time for a layout is a parameter.
use ayd.Common.{
  ℕ, ◌*◌, ◌≤◌, Bool, ◌&&◌, ◌||◌, List, [], ◌∷◌, Option, none, some, Bytes, ltb, leb, ◌==◌,
  if◌then◌else◌, length, ◌≢◌, arith, tests,
}
use ayd.Api.ParseTime.{Read, value, reject, panic, ◌>>=◌, at, ZonedTime, second_ns, parse_rfc3339}
use ayd.Api.ParseTime.Total.{parse_rfc3339-Holds}
use ayd.Api.ParseTime.Holds.{Holds, Always, Holds->>=, Holds-at, Holds-if, Holds-no_panic}

-- The layouts of package time that are tried where the text is not of RFC 3339.
pub data Layout : Type 0 where
  layout rfc822 rfc822z rfc850 rfc1123 rfc1123z ansic unix_date ruby_date : Layout

abbrev minute_layouts : List (Layout × ℕ)
minute_layouts = (rfc822, 60 * second_ns) ∷ (rfc822z, 60 * second_ns) ∷ []

abbrev comma_layouts : List (Layout × ℕ)
comma_layouts = (rfc1123, second_ns) ∷ (rfc1123z, second_ns) ∷ []

abbrev space_layouts : List (Layout × ℕ)
space_layouts = (ansic, second_ns) ∷ (unix_date, second_ns) ∷ (ruby_date, second_ns) ∷ []

-- `s[0] == 'S' || s[0] == 'M' || ...`, the first letters of the days of the week.
abbrev pub is_weekday : ℕ → Bool
is_weekday c = (c == b'S') || (c == b'M') || (c == b'T') || (c == b'W') || (c == b'F')

abbrev pub digit_formats : ℕ → List (Layout × ℕ)
digit_formats d =
    if d == b'/' then (layout, second_ns) ∷ [] else if d == b' ' then minute_layouts else []

abbrev pub weekday_formats : ℕ → List (Layout × ℕ)
weekday_formats d =
    if d == b','
    then comma_layouts
    else if d == b' '
    then space_layouts
    else (rfc850, second_ns) ∷ []

-- The choice of `timeformats`.
unfoldable pub time_formats : Bytes → Read (List (Layout × ℕ))
time_formats s = at s 0 λ c.
    if leb b'0' c && leb c b'9'
    then (at s 2 λ d. value (digit_formats d))
    else if is_weekday c
    then (at s 3 λ d. value (weekday_formats d))
    else value []

-- `if err == nil { return t, f.Resolution, nil }`
abbrev pub parsed_or : Option ZonedTime → ℕ → Read (ZonedTime × ℕ) → Read (ZonedTime × ℕ)
parsed_or none resolution rest = rest
parsed_or (some t) resolution rest = value (t, resolution)

-- The loop over the layouts, with `time.Parse` or `time.ParseInLocation`.
unfoldable pub first_parsed :
    (Layout → Bytes → Option ZonedTime) → Bytes → List (Layout × ℕ) → Read (ZonedTime × ℕ)
first_parsed parse s [] = reject
first_parsed parse s ((l, resolution) ∷ ls) =
    let rest = first_parsed parse s ls in parsed_or (parse l s) resolution rest

-- `if t, acc, ok := parseRFC3339(s, tz); ok { return t, acc, nil }`, and what comes after it.
abbrev pub or_formats : Read (ZonedTime × ℕ) → Read (ZonedTime × ℕ) → Read (ZonedTime × ℕ)
or_formats (value t) rest = value t
or_formats reject rest = rest
or_formats panic rest = panic

-- `ParseTimeWithResolution`, with `reject` for its error. `parse` is the parser of package time.
unfoldable pub parse_time_with_resolution :
    (Layout → Bytes → Option ZonedTime) → Bytes → Bool → Read (ZonedTime × ℕ)
parse_time_with_resolution parse s has_default =
    or_formats (parse_rfc3339 s has_default)
      (if ltb (length s) 19 then reject else time_formats s >>= λ ls. first_parsed parse s ls)

parsed_or-Holds :
    (o : Option ZonedTime) (n : ℕ) (rest : Read (ZonedTime × ℕ))
    → Holds Always rest
    → Holds Always (parsed_or o n rest)
parsed_or-Holds none n rest h = h
parsed_or-Holds (some t) n rest h = tt

first_parsed-Holds :
    (parse : Layout → Bytes → Option ZonedTime) (s : Bytes) (ls : List (Layout × ℕ))
    → Holds Always (first_parsed parse s ls)
unfolding first_parsed
first_parsed-Holds parse s [] = tt
first_parsed-Holds parse s ((l, n) ∷ ls) =
    parsed_or-Holds (parse l s) n _ (first_parsed-Holds parse s ls)

time_formats-Holds : (s : Bytes) → 19 ≤ length s → Holds Always (time_formats s)
unfolding time_formats
time_formats-Holds s h = Holds-at Always s 0 _ (omega arith) (λ c.
    Holds-if Always (leb b'0' c && leb c b'9') _ _
      (λ _. Holds-at Always s 2 _ (omega arith) (λ d. tt))
      (λ _.
        Holds-if Always (is_weekday c) _ _ (λ _. Holds-at Always s 3 _ (omega arith) (λ d. tt))
          (λ _. tt)))

or_formats-Holds :
    (a b : Read (ZonedTime × ℕ)) → Holds Always a → Holds Always b → Holds Always (or_formats a b)
or_formats-Holds (value t) b h k = tt
or_formats-Holds reject b h k = k
or_formats-Holds panic b h k = absurd h

-- Whatever the text is, `ParseTimeWithResolution` reads no byte outside of it: it ends with a time or
-- with its error.
pub parse_time_with_resolution_total :
    (parse : Layout → Bytes → Option ZonedTime) (s : Bytes) (has_default : Bool)
    → parse_time_with_resolution parse s has_default ≢ panic
unfolding parse_time_with_resolution
parse_time_with_resolution_total parse s has_default = Holds-no_panic _ (
    or_formats-Holds _ _ (parse_rfc3339-Holds s has_default) (
      Holds-if Always (ltb (length s) 19) _ _ (λ _. tt)
        (λ long.
          Holds->>= Always Always _ _ (time_formats-Holds s (omega (tests, long)))
            (λ ls _. first_parsed-Holds parse s ls))))
