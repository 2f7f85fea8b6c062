-- ===== src/Scheme/UrlSet/Members.antt =====
-- internal/scheme/urlset.go: what `Has` tells, and what `Add` keeps and loses.
use ayd.Common.{
  ℕ, zero, suc, Bool, true, false, ◌≡◌, refl, sym, ap, ◌∙◌, List, [], ◌∷◌, ◌++◌, Bytes, bytes_eq,
  bytes_eq_iff, length, get_elem?, ◌==◌, if◌then◌else◌, All, arith, Bool-cases, inl, inr,
}
use mathlib.Core.Path.{subst}
use mathlib.Core.Bool.{false≢true}
use ayd.Api.Record.{Url}
use ayd.Scheme.Search.{at_most}
use ayd.Scheme.Search.Least.{Monotone, IsLeast, sort_search-IsLeast}
use ayd.Scheme.Search.Order.{at_most_refl, at_most_trans, at_most_antisym}
use ayd.Scheme.Tracker.{is_listed}
use ayd.Scheme.UrlSet.{is_at_most, search, has_text, has, put_at, add}

abbrev pub AtMost : Bytes → Url → Type 0
AtMost text v = at_most v.text text ≡ true

-- In the order of the texts, the greatest first.
abbrev pub Descends : List Url → Type 0
Descends [] = Unit
Descends (v ∷ s) = All (AtMost v.text) s × Descends s

-- How many URLs stand before the first that is at most the text.
abbrev position : Bytes → List Url → ℕ
position text [] = 0
position text (v ∷ s) = let rest = position text s in if at_most v.text text then 0 else suc rest

pub All-AtMost_trans :
    (a b : Bytes) (s : List Url) → at_most a b ≡ true → All (AtMost a) s → All (AtMost b) s
All-AtMost_trans a b [] h all = tt
All-AtMost_trans a b (v ∷ s) h all =
    (at_most_trans v.text a b all.0 h, All-AtMost_trans a b s h all.1)

-- The test of the search.
test : Bytes → List Url → ℕ → Bool
test text s i = is_at_most text (get_elem? s i)

test-All : (text : Bytes) (s : List Url) → All (AtMost text) s → (i : ℕ) → test text s i ≡ true
unfolding test is_at_most
test-All text [] all i = refl
test-All text (v ∷ s) all zero = all.0
test-All text (v ∷ s) all (suc i) = test-All text s all.1 i

test-Monotone : (text : Bytes) (s : List Url) → Descends s → Monotone (test text s)
unfolding test is_at_most
test-Monotone text [] d k l le h = refl
test-Monotone text (v ∷ s) d zero l le h =
    test-All text (v ∷ s) (h, All-AtMost_trans v.text text s h d.0) l
test-Monotone text (v ∷ s) d (suc k) zero le h = absurd (omega arith)
test-Monotone text (v ∷ s) d (suc k) (suc l) le h = test-Monotone text s d.1 k l (omega arith) h

IsLeast-position :
    (text : Bytes) (s : List Url) (r : ℕ)
    → IsLeast (test text s) 0 (length s) r
    → r ≡ position text s
unfolding test is_at_most
IsLeast-position text [] r l = omega (arith, l.to)
IsLeast-position text (v ∷ s) zero l = rw (l.holds (omega arith))
IsLeast-position text (v ∷ s) (suc r) l = rw (l.none_before 0 (omega arith) (omega arith)) (
    ap suc (
      IsLeast-position text s r (record {
        from = omega arith;
        to = omega (arith, l.to);
        holds = λ low. l.holds (omega arith);
        none_before = λ k low high. l.none_before (suc k) (omega arith) (omega arith);
      })))

search-position : (s : List Url) (u : Url) → Descends s → search s u ≡ position u.text s
unfolding search test
search-position s u d =
    IsLeast-position u.text s _
      (sort_search-IsLeast (length s) (test u.text s) (test-Monotone u.text s d))

is_listed_below :
    (a text : Bytes) (s : List Url)
    → All (AtMost a) s
    → at_most a text ≡ true
    → bytes_eq a text ≡ false
    → is_listed text s ≡ false
unfolding is_listed
is_listed_below a text [] all h ne = refl
is_listed_below a text (v ∷ s) all h ne = elim (Bool-cases (bytes_eq v.text text)) [
  | inl same ↦
      let eq : v.text ≡ text = (bytes_eq_iff v.text text).0 same in
      let back : at_most text a ≡ true = subst (λ x. at_most x a ≡ true) eq all.0 in
      absurd (false≢true (sym ne ∙ (bytes_eq_iff a text).1 (at_most_antisym a text h back)))
  | inr other ↦ rw other (is_listed_below a text s all.1 h ne)
]

suc-==-zero : (m : ℕ) → (suc m == 0) ≡ false
suc-==-zero m = ground arith

suc-==-suc : (m n : ℕ) → (suc m == suc n) ≡ (m == n)
suc-==-suc m n = ground arith

has-position :
    (text : Bytes) (s : List Url)
    → Descends s
    → (if length s == position text s then false else has_text text (get_elem? s (position text s)))
      ≡ is_listed text s
unfolding is_listed has_text
has-position text [] d = refl
has-position text (v ∷ s) d = elim (Bool-cases (at_most v.text text)) [
  | inl low ↦ rw low (
      ap (λ b. if b then false else bytes_eq v.text text) (suc-==-zero (length s))
      ∙ listed_first low)
  | inr high ↦ rw high (
      ap (λ b. if b then false else has_text text (get_elem? s (position text s)))
        (suc-==-suc (length s) (position text s))
      ∙ has-position text s d.1
      ∙ listed_later high)
]
  where
    listed_first :
        at_most v.text text ≡ true
        → bytes_eq v.text text ≡ (if bytes_eq v.text text then true else is_listed text s)
    listed_first low = elim (Bool-cases (bytes_eq v.text text)) [
      | inl same ↦ rw same
      | inr other ↦ rw other (sym (is_listed_below v.text text s d.0 low other))
    ]

    listed_later :
        at_most v.text text ≡ false
        → is_listed text s ≡ (if bytes_eq v.text text then true else is_listed text s)
    listed_later high = elim (Bool-cases (bytes_eq v.text text)) [
      | inl same ↦
          let eq : v.text ≡ text = (bytes_eq_iff v.text text).0 same in
          absurd
            (false≢true (sym high ∙ subst (λ x. at_most v.text x ≡ true) eq (at_most_refl v.text)))
      | inr other ↦ rw other
    ]

-- On a set in its order, `Has` tells exactly whether a URL of the same text is in it.
pub has-is_listed : (s : List Url) (u : Url) → Descends s → has s u ≡ is_listed u.text s
unfolding has
has-is_listed s u d = rw (search-position s u d) (has-position u.text s d)

-- What `Add` makes of a set: it inserts at the end only; elsewhere the URL takes the place of the
-- one that is there, and stands there twice.
abbrev pub inserted : List Url → Url → List Url
inserted [] u = u ∷ []
inserted (v ∷ s) u =
    let rest = inserted s u in
    if at_most v.text u.text
    then (if bytes_eq v.text u.text then v ∷ s else u ∷ u ∷ s)
    else v ∷ rest

add-position :
    (s : List Url) (u : Url)
    → (if length s == position u.text s
        then s ++ u ∷ []
        else if has_text u.text (get_elem? s (position u.text s))
        then s
        else put_at s (position u.text s) u)
      ≡ inserted s u
unfolding has_text put_at
add-position [] u = refl
add-position (v ∷ s) u = elim (Bool-cases (at_most v.text u.text)) [
  | inl low ↦ rw low (
      ap (λ b. if b then (v ∷ s) ++ u ∷ [] else if bytes_eq v.text u.text then v ∷ s else u ∷ u ∷ s)
        (suc-==-zero (length s)))
  | inr high ↦
      let p = position u.text s in
      rw high (
        ap
          (λ b.
            if b
            then v ∷ (s ++ u ∷ [])
            else if has_text u.text (get_elem? s p)
            then v ∷ s
            else v ∷ put_at s p u)
          (suc-==-suc (length s) p)
        ∙ under v (length s == p) (has_text u.text (get_elem? s p)) (s ++ u ∷ []) s (put_at s p u)
        ∙ ap (λ s. v ∷ s) (add-position s u))
]
  where
    under :
        (v : Url) (b c : Bool) (x y z : List Url)
        → (if b then v ∷ x else if c then v ∷ y else v ∷ z)
          ≡ v ∷ (if b then x else if c then y else z)
    under v true c x y z = refl
    under v false true x y z = refl
    under v false false x y z = refl

pub add-inserted : (s : List Url) (u : Url) → Descends s → add s u ≡ inserted s u
unfolding add
add-inserted s u d = rw (search-position s u d) (add-position s u)
