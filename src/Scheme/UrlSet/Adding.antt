-- ===== src/Scheme/UrlSet/Adding.antt =====
-- internal/scheme/urlset.go: what `Add` keeps and what it loses.
use ayd.Common.{
  true, false, ◌≡◌, refl, sym, ap, ◌∙◌, List, [], ◌∷◌, ◌++◌, Bytes, bytes_eq, bytes_eq_refl,
  if◌then◌else◌, All, Bool-cases, inl, inr,
}
use mathlib.Core.Path.{subst}
use ayd.Api.Record.{Url}
use ayd.Scheme.Search.{at_most}
use ayd.Scheme.Search.Order.{at_most_refl, at_most_total}
use ayd.Scheme.Tracker.{is_listed}
use ayd.Scheme.UrlSet.{has, add}
use ayd.Scheme.UrlSet.Members.{
  AtMost, Descends, inserted, add-inserted, has-is_listed, All-AtMost_trans,
}

All-inserted :
    (a : Bytes) (s : List Url) (u : Url)
    → All (AtMost a) s
    → at_most u.text a ≡ true
    → All (AtMost a) (inserted s u)
All-inserted a [] u all h = (h, tt)
All-inserted a (v ∷ s) u all h = elim (Bool-cases (at_most v.text u.text)) [
  | inl low ↦ rw low (elim (Bool-cases (bytes_eq v.text u.text)) [
    | inl same ↦ rw same all
    | inr other ↦ rw other (h, (h, all.1))
  ])
  | inr high ↦ rw high (all.0, All-inserted a s u all.1 h)
]

Descends-inserted : (s : List Url) (u : Url) → Descends s → Descends (inserted s u)
Descends-inserted [] u d = (tt, tt)
Descends-inserted (v ∷ s) u d = elim (Bool-cases (at_most v.text u.text)) [
  | inl low ↦ rw low (elim (Bool-cases (bytes_eq v.text u.text)) [
    | inl same ↦ rw same d
    | inr other ↦
        let below = All-AtMost_trans v.text u.text s low d.0 in
        rw other ((at_most_refl u.text, below), (below, d.1))
  ])
  | inr high ↦
      rw high
        (All-inserted v.text s u d.0 (at_most_total v.text u.text high), Descends-inserted s u d.1)
]

is_listed-inserted : (s : List Url) (u : Url) → is_listed u.text (inserted s u) ≡ true
unfolding is_listed
is_listed-inserted [] u = rw (bytes_eq_refl u.text)
is_listed-inserted (v ∷ s) u = elim (Bool-cases (at_most v.text u.text)) [
  | inl low ↦ rw low (elim (Bool-cases (bytes_eq v.text u.text)) [
    | inl same ↦ rw same (ap (λ b. if b then true else is_listed u.text s) same)
    | inr other ↦ rw other (rw (bytes_eq_refl u.text))
  ])
  | inr high ↦ rw high (elim (Bool-cases (bytes_eq v.text u.text)) [
    | inl same ↦ rw same
    | inr other ↦ rw other (is_listed-inserted s u)
  ])
]

-- `Add` keeps a set in its order, and `Has` finds the URL afterwards.
pub add-Descends :
    (s : List Url) (u : Url) → Descends s → Descends (add s u) × (has (add s u) u ≡ true)
add-Descends s u d =
    let d' : Descends (add s u) =
      subst Descends (sym (add-inserted s u d)) (Descends-inserted s u d) in
    (
      d',
      has-is_listed (add s u) u d'
          ∙ ap (is_listed u.text) (add-inserted s u d)
          ∙ is_listed-inserted s u,
    )

abbrev pub Above : Bytes → Url → Type 0
Above text v = at_most v.text text ≡ false

inserted_between :
    (before after : List Url) (v u : Url)
    → All (Above u.text) before
    → at_most v.text u.text ≡ true
    → bytes_eq v.text u.text ≡ false
    → inserted (before ++ v ∷ after) u ≡ before ++ u ∷ u ∷ after
inserted_between [] after v u above low other = rw low (rw other refl)
inserted_between (w ∷ before) after v u above low other =
    rw above.0 (ap (λ s. w ∷ s) (inserted_between before after v u above.1 low other))

-- Where a new URL belongs right before a URL of a set in its order, `Add` puts it in the place of
-- that URL, which is lost, and puts it there twice.
pub add_overwrites :
    (before after : List Url) (v u : Url)
    → Descends (before ++ v ∷ after)
    → All (Above u.text) before
    → at_most v.text u.text ≡ true
    → bytes_eq v.text u.text ≡ false
    → add (before ++ v ∷ after) u ≡ before ++ u ∷ u ∷ after
add_overwrites before after v u d above low other =
    add-inserted (before ++ v ∷ after) u d ∙ inserted_between before after v u above low other
