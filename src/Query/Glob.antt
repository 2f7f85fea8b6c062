-- ===== src/Query/Glob.antt =====
-- internal/query/stringmatcher.go: the matchers of text with wildcards, and their builder.
pub mod Pattern
pub mod Index
pub mod Chunks
pub mod Matcher
pub mod Build
use ayd.Common.{
  ℕ, ◌+◌, ◌-◌, zero, suc, Bool, true, false, not, ◌&&◌, ◌||◌, List, [], ◌∷◌, ◌++◌, Option, none,
  some, Bytes, bytes_eq, length, take, drop, ltb, leb, ◌==◌, if◌then◌else◌, get_last?, drop_last,
}

-- `strings.HasPrefix(s, p)`
unfoldable pub has_prefix : Bytes → Bytes → Bool
has_prefix s [] = true
has_prefix [] (x ∷ p) = false
has_prefix (y ∷ s) (x ∷ p) = y == x && has_prefix s p

-- `strings.HasSuffix(s, p)`
unfoldable pub has_suffix : Bytes → Bytes → Bool
has_suffix s p = leb (length p) (length s) && bytes_eq (drop (length s - length p) s) p

abbrev next_index : Option ℕ → Option ℕ
next_index none = none
next_index (some i) = some (suc i)

-- `strings.Index(s, sub)`, with `none` for -1.
unfoldable pub index : Bytes → Bytes → Option ℕ
unfolding has_prefix
index [] sub = if has_prefix [] sub then some 0 else none
index (x ∷ s) sub =
    let rest = index s sub in if has_prefix (x ∷ s) sub then some 0 else next_index rest

-- `strings.Contains(s, sub)`
unfoldable pub contains : Bytes → Bytes → Bool
unfolding index
contains s sub = elim (index s sub) [ none ↦ false | some i ↦ true ]

pub record GlobMatcher : Type 0 where
  pub prefix : Bytes
  pub suffix : Bytes
  pub chunks : List Bytes
  pub chunks_length : ℕ

pub data StringMatcher : Type 0 where
  glob : GlobMatcher → StringMatcher
  exact : Bytes → StringMatcher
  starts : Bytes → StringMatcher
  ends : Bytes → StringMatcher
  includes : Bytes → StringMatcher

-- `s[left:right]`; `none` is the panic on a range outside the string.
unfoldable pub slice : Bytes → ℕ → ℕ → Option Bytes
slice s left right =
    if leb left right && leb right (length s)
    then some (take (right - left) (drop left s))
    else none

abbrev jump : Option ℕ → (ℕ → Option Bool) → Option Bool
jump none next = some false
jump (some i) next = next i

abbrev window : Option Bytes → (Bytes → Option Bool) → Option Bool
window none next = none
window (some w) next = next w

-- The loop of `globMatcher.Match` over the chunks. `none` is a panic.
unfoldable pub match_chunks : Bytes → ℕ → ℕ → List Bytes → Option Bool
unfolding slice index
match_chunks s left right [] = some true
match_chunks s left right (chunk ∷ chunks) =
    let right' = right + length chunk in
    window (slice s left right')
      λ w. jump (index w chunk) λ i. match_chunks s (left + (i + length chunk)) right' chunks

-- `globMatcher.Match`
unfoldable pub match_glob : GlobMatcher → Bytes → Option Bool
unfolding match_chunks
match_glob g s =
    if ltb (length s) (length g.prefix + g.chunks_length + length g.suffix)
    then some false
    else if not (bytes_eq (take (length g.prefix) s) g.prefix)
        || not (bytes_eq (drop (length s - length g.suffix) s) g.suffix)
    then some false
    else match_chunks s (length g.prefix) (length s - g.chunks_length - length g.suffix) g.chunks

-- `stringMatcher.Match`
unfoldable pub string_match : StringMatcher → Bytes → Option Bool
unfolding match_glob
string_match (glob g) s = match_glob g s
string_match (exact str) s = some (bytes_eq str s)
string_match (starts str) s = some (has_prefix s str)
string_match (ends str) s = some (has_suffix s str)
string_match (includes str) s = some (contains s str)

pub record GlobBuilder : Type 0 where
  pub prefix_closed : Bool
  pub prefix : Bytes
  pub no_suffix : Bool
  pub chunks : List Bytes
  pub chunks_length : ℕ

abbrev pub new_builder : GlobBuilder
new_builder = record {
  prefix_closed = false;
  prefix = [];
  no_suffix = false;
  chunks = [];
  chunks_length = 0;
}

unfoldable pub feed_literal : GlobBuilder → Bytes → GlobBuilder
feed_literal b s =
    if b.prefix_closed
    then record b {
      no_suffix = false;
      chunks = b.chunks ++ s ∷ [];
      chunks_length = b.chunks_length + length s;
    }
    else record b { no_suffix = false; prefix = s; prefix_closed = true }

unfoldable pub feed_star : GlobBuilder → GlobBuilder
feed_star b = record b { no_suffix = true; prefix_closed = true }

abbrev is_empty {ℓ} : {A : Type ℓ} → List A → Bool
is_empty [] = true
is_empty (x ∷ xs) = false

abbrev or_empty : Option Bytes → Bytes
or_empty none = []
or_empty (some s) = s

-- `Build` after the suffix is split off: the choice of the matcher.
unfoldable pub choose : Bytes → Bool → Bytes → List Bytes → ℕ → StringMatcher
choose prefix no_suffix suffix [] chunks_length =
    if not (is_empty prefix) && is_empty suffix
    then if no_suffix then starts prefix else exact prefix
    else if is_empty prefix && not (is_empty suffix)
    then ends suffix
    else glob
        (record { prefix = prefix; suffix = suffix; chunks = []; chunks_length = chunks_length })
choose prefix no_suffix suffix (c ∷ []) chunks_length =
    if is_empty prefix && is_empty suffix
    then includes c
    else glob (record {
      prefix = prefix;
      suffix = suffix;
      chunks = c ∷ [];
      chunks_length = chunks_length;
    })
choose prefix no_suffix suffix chunks chunks_length =
    glob
      (record { prefix = prefix; suffix = suffix; chunks = chunks; chunks_length = chunks_length })

unfoldable pub build : GlobBuilder → StringMatcher
unfolding choose
build b =
    let suffix = or_empty (get_last? b.chunks) in
    if not (is_empty b.chunks) && not b.no_suffix
    then choose b.prefix b.no_suffix suffix (drop_last b.chunks) (b.chunks_length - length suffix)
    else choose b.prefix b.no_suffix [] b.chunks b.chunks_length

-- `if buf.Len() > 0 { glob.FeedLiteral(buf.String()) }`
unfoldable pub flush : GlobBuilder → Bytes → GlobBuilder
unfolding feed_literal
flush b buf = if is_empty buf then b else feed_literal b buf

-- The loop of `newStringMatcher`; `none` stands for the wildcard, a nil pointer.
unfoldable pub feed_all : GlobBuilder → Bytes → List (Option Bytes) → StringMatcher
unfolding flush feed_star build
feed_all b buf [] = build (flush b buf)
feed_all b buf (none ∷ query) = feed_all (feed_star (flush b buf)) [] query
feed_all b buf (some s ∷ query) = feed_all b (buf ++ s) query

unfoldable pub new_string_matcher : List (Option Bytes) → StringMatcher
unfolding feed_all
new_string_matcher [] = exact []
new_string_matcher query = feed_all new_builder [] query
