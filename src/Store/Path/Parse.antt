-- ===== src/Store/Path/Parse.antt =====
-- internal/store/pattern.go: `ParsePathPattern`. Paths have slashes, where `filepath.FromSlash` is
-- the identity.
use ayd.Common.{
  ℕ, ◌+◌, ◌<◌, true, false, List, [], ◌∷◌, ◌++◌, ◌≡◌, refl, ap, Bytes, ltb, ◌==◌, if◌then◌else◌,
  append-nil, append_assoc, Bool-cases, inl, inr, arith, ◌∙◌,
}
use Prim.Native.Nat.{◌/◌, ◌%◌}
use ayd.Calendar.{Civil, Moment}
use ayd.Store.Path.{
  Fragment, const_fragment, year_fragment, month_fragment, day_fragment, hour_fragment,
  minute_fragment, two_digits, itoa, build_fragment,
}
use ayd.Store.Path.Files.{PathPattern, build, build_all}

-- `string(s[i])`, the UTF-8 text of the character whose code is the byte.
unfoldable pub string_of_byte : ℕ → Bytes
string_of_byte c = if ltb c 128 then c ∷ [] else (192 + c / 64) ∷ (128 + c % 64) ∷ []

-- `if c := constFragment(...); c != "" { p.fragments = append(p.fragments, c) }`, where `rest` is
-- appended later.
abbrev pub with_const : Bytes → List Fragment → List Fragment
with_const [] rest = rest
with_const (c ∷ text) rest = const_fragment (c ∷ text) ∷ rest

pub data Directive : Type 0 where
  time_directive : Fragment → Directive
  text_directive : Bytes → Directive

-- The `switch` on the byte behind a percent sign.
unfoldable pub directive : ℕ → Directive
directive c =
    if c == b'Y'
    then time_directive (year_fragment false)
    else if c == b'y'
    then time_directive (year_fragment true)
    else if c == b'm'
    then time_directive month_fragment
    else if c == b'd'
    then time_directive day_fragment
    else if c == b'H'
    then time_directive hour_fragment
    else if c == b'M'
    then time_directive minute_fragment
    else text_directive (b'%' ∷ string_of_byte c)

-- What follows a directive: a fragment for a time, and else the text in `buf`.
abbrev pub follow_directive : Directive → (Bytes → List Fragment) → List Fragment
follow_directive (time_directive f) rest = f ∷ rest []
follow_directive (text_directive text) rest = rest text

-- The loop of `ParsePathPattern`, on `s[i:]`; `text` is what `buf` and `s[left:i]` hold.
unfoldable pub parse_from : Bytes → Bytes → List Fragment
parse_from text [] = with_const text []
parse_from text (c ∷ []) = with_const (text ++ c ∷ []) []
parse_from text (c ∷ d ∷ s) = elim (c == b'%') [
  | false ↦ parse_from (text ++ c ∷ []) (d ∷ s)
  | true ↦ elim (d == b'%') [
    | true ↦ parse_from (text ++ c ∷ []) s
    | false ↦ with_const text (follow_directive (directive d) (λ t. parse_from t s))
  ]
]

unfoldable pub parse_path_pattern : Bytes → PathPattern
parse_path_pattern s = record { pattern = s; fragments = parse_from [] s }

-- What a percent sign and a byte stand for.
unfoldable pub replaced : ℕ → Civil → Bytes
replaced d t =
    if d == b'%'
    then b'%' ∷ []
    else if d == b'Y'
    then itoa t.year
    else if d == b'y'
    then two_digits t.year
    else if d == b'm'
    then two_digits t.month
    else if d == b'd'
    then two_digits t.day
    else if d == b'H'
    then two_digits t.hour
    else if d == b'M'
    then two_digits t.minute
    else b'%' ∷ d ∷ []

-- What a path means: each directive stands for a part of the time, two percent signs for one, and
-- every other byte for itself.
unfoldable pub expand : Bytes → Civil → Bytes
expand [] t = []
expand (c ∷ []) t = c ∷ []
expand (c ∷ d ∷ s) t = elim (c == b'%') [
  | false ↦ c ∷ expand (d ∷ s) t
  | true ↦ replaced d t ++ expand s t
]

-- No byte from 128 on stands right behind a percent sign that begins a directive. Such a byte would be
-- written as the text of a character.
unfoldable pub Plain : Bytes → Type 0
Plain [] = Unit
Plain (c ∷ []) = Unit
Plain (c ∷ d ∷ s) = elim (c == b'%') [ false ↦ Plain (d ∷ s) | true ↦ (d < 128) × Plain s ]

build-with_const :
    (text : Bytes) (fs : List Fragment) (t : Civil)
    → build_all (with_const text fs) t ≡ text ++ build_all fs t
unfolding build_all build_fragment
build-with_const [] fs t = refl
build-with_const (c ∷ text) fs t = refl

build-follow_directive :
    (d : ℕ) (s : Bytes) (t : Civil)
    → d < 128
    → (d == b'%') ≡ false
    → ((text : Bytes) → build_all (parse_from text s) t ≡ text ++ expand s t)
    → build_all (follow_directive (directive d) (λ text. parse_from text s)) t
      ≡ replaced d t ++ expand s t
unfolding directive replaced build_all build_fragment string_of_byte
build-follow_directive d s t low h ih = ground (arith, ih [], ih (b'%' ∷ d ∷ []))

behind_percent :
    (c d : ℕ) (s : Bytes) → (c == b'%') ≡ true → Plain (c ∷ d ∷ s) → (d < 128) × Plain s
unfolding Plain
behind_percent c d s e h = rw (e, Plain) at h

behind_text : (c d : ℕ) (s : Bytes) → (c == b'%') ≡ false → Plain (c ∷ d ∷ s) → Plain (d ∷ s)
unfolding Plain
behind_text c d s e h = rw (e, Plain) at h

replaced_percent :
    (c d : ℕ) (t : Civil) → (c == b'%') ≡ true → (d == b'%') ≡ true → replaced d t ≡ c ∷ []
unfolding replaced
replaced_percent c d t hc hd = ground arith

build-parse_from :
    (text s : Bytes) (t : Civil) → Plain s → build_all (parse_from text s) t ≡ text ++ expand s t
unfolding parse_from expand build_all Plain
build-parse_from text [] t plain = build-with_const text [] t
build-parse_from text (c ∷ []) t plain = build-with_const (text ++ c ∷ []) [] t ∙ append-nil _
build-parse_from text (c ∷ d ∷ s) t plain = elim (Bool-cases (c == b'%')) [
  | inl percent ↦
      let (low, rest) = behind_percent c d s percent plain in
      elim (Bool-cases (d == b'%')) [
        | inl two ↦
            rw (percent, two, parse_from, expand, replaced_percent c d t percent two)
              (build-parse_from (text ++ c ∷ []) s t rest ∙ append_assoc text (c ∷ []) (expand s t))
        | inr one ↦
            rw (percent, one, parse_from, expand)
              (build-with_const text _ t
                ∙ ap (◌++◌ text)
                    (build-follow_directive d s t low one (λ next. build-parse_from next s t rest)))
      ]
  | inr other ↦
      rw (other, parse_from, expand)
        (build-parse_from (text ++ c ∷ []) (d ∷ s) t (behind_text c d s other plain)
          ∙ append_assoc text (c ∷ []) (expand (d ∷ s) t))
]

-- The file name that `Build` makes of a parsed path is the path with each directive replaced by its
-- part of the time, two percent signs by one, and every other byte kept. No byte of the path right
-- behind the percent sign of a directive is from 128 on.
pub build-parse_path_pattern :
    (s : Bytes) (t : Moment) → Plain s → build (parse_path_pattern s) t ≡ expand s t.civil
unfolding build parse_path_pattern
build-parse_path_pattern s t plain = build-parse_from [] s t.civil plain
