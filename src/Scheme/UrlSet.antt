-- ===== src/Scheme/UrlSet.antt =====
-- internal/scheme/urlset.go. The set is a slice of URLs in the order of their texts, the greatest
-- first.
pub mod Members
pub mod Adding
use ayd.Common.{
  ℕ, zero, suc, Bool, true, false, List, [], ◌∷◌, ◌++◌, Option, none, some, Bytes, bytes_eq, length,
  take, drop, get_elem?, ◌==◌, if◌then◌else◌,
}
use ayd.Api.Record.{Url}
use ayd.Scheme.Search.{sort_search, at_most}

-- The test at an index. `sort.Search` asks only for indices of the slice.
abbrev pub is_at_most : Bytes → Option Url → Bool
unfolding at_most
is_at_most text none = true
is_at_most text (some v) = at_most v.text text

-- `urlSet.search`
unfoldable pub search : List Url → Url → ℕ
unfolding sort_search is_at_most
search s u = sort_search (length s) (λ i. is_at_most u.text (get_elem? s i))

-- `s[i].String() == u.String()`
abbrev pub has_text : Bytes → Option Url → Bool
unfolding bytes_eq
has_text text none = false
has_text text (some v) = bytes_eq v.text text

-- `urlSet.Has`
unfoldable pub has : List Url → Url → Bool
unfolding search has_text
has s u = let i = search s u in if length s == i then false else has_text u.text (get_elem? s i)

-- `s[i] = u`
unfoldable pub overwrite : List Url → ℕ → Url → List Url
overwrite [] i u = []
overwrite (v ∷ s) zero u = u ∷ s
overwrite (v ∷ s) (suc i) u = v ∷ overwrite s i u

-- `append(append(s[:i], u), s[i:]...)` for an index of the slice: the inner `append` has room, so it
-- writes over `s[i]`, and `s[i:]` is read from the same array.
unfoldable pub put_at : List Url → ℕ → Url → List Url
unfolding overwrite
put_at s i u = let written = overwrite s i u in (take i written ++ u ∷ []) ++ drop i written

-- `urlSet.Add`. After the append at the end, the second test finds `u` there.
unfoldable pub add : List Url → Url → List Url
unfolding search put_at has_text
add s u =
    let i = search s u in
    if length s == i
    then s ++ u ∷ []
    else if has_text u.text (get_elem? s i)
    then s
    else put_at s i u
