-- ===== src/Endpoint/Paging.antt =====
-- internal/endpoint/log.go: a page is the part of the matching records that its options name.
use ayd.Common.{
  ℕ, zero, suc, ◌+◌, ◌-◌, Bool, true, false, not, ◌&&◌, ◌≡◌, refl, sym, ap, ◌∙◌, List, [], ◌∷◌,
  Option, none, some, take, drop, leb, ◌==◌, if◌then◌else◌, Bool-cases, inl, inr, arith,
}
use ayd.Endpoint.{LogScanner, filter_scan, raw_scanner}

-- The records that the query matches, or all.
abbrev pub matching : {X : Type 0} → Option (X → Bool) → List X → List X
matching none xs = xs
matching (some matches) [] = []
matching (some matches) (x ∷ xs) =
    let rest = matching (some matches) xs in if matches x then x ∷ rest else rest

module _ {S X : Type 0} where
  abbrev pub Shows : (S → List X) → List X → Option X × S → Type 0
  Shows view xs (none, s) = (xs ≡ []) × (view s ≡ [])
  Shows view xs (some x, s) = xs ≡ x ∷ view s

  -- The scanner gives the records of a list, one after the other.
  abbrev pub Follows : LogScanner S X → (S → List X) → Type 0
  Follows inner view = (s : S) → Shows view (view s) (inner.scan s)

module _ {X : Type 0} where
  filter_scan-Shows :
      (matches : X → Bool) (xs : List X)
      → Shows (matching (some matches)) (matching (some matches) xs) (filter_scan matches xs)
  unfolding filter_scan
  filter_scan-Shows matches [] = (refl, refl)
  filter_scan-Shows matches (x ∷ xs) = elim (Bool-cases (matches x)) [
    | inl hit ↦ rw hit refl
    | inr miss ↦ rw miss (filter_scan-Shows matches xs)
  ]

  pub raw_scanner-Follows :
      (query : Option (X → Bool)) → Follows (raw_scanner query) (matching query)
  unfolding raw_scanner
  raw_scanner-Follows none [] = (refl, refl)
  raw_scanner-Follows none (x ∷ xs) = refl
  raw_scanner-Follows (some matches) xs = filter_scan-Shows matches xs

-- The records of a page from those that are left, where `count` have been read before: no limit is
-- written as zero.
abbrev pub page : {X : Type 0} → (offset limit count : ℕ) → List X → List X
page offset limit count xs =
    let rest = drop (offset - count) xs in
    if limit == 0 then rest else take (limit - (count - offset)) rest

module _ {X : Type 0} where
  take_nil : (n : ℕ) → take {A = X} n [] ≡ []
  take_nil zero = refl
  take_nil (suc n) = refl

  drop_nil : (n : ℕ) → drop {A = X} n [] ≡ []
  drop_nil zero = refl
  drop_nil (suc n) = refl

  pub page_nil : (o l c : ℕ) → page {X = X} o l c [] ≡ []
  page_nil o l c = elim (Bool-cases (l == 0)) [
    | inl all ↦ rw all (drop_nil (o - c))
    | inr some_ ↦ rw some_ (ap (take (l - (c - o))) (drop_nil (o - c)) ∙ take_nil (l - (c - o)))
  ]

  -- A record before the offset is passed over.
  pub page_before :
      (n o l c : ℕ) (x : X) (xs : List X)
      → suc n ≡ o - c
      → page o l c (x ∷ xs) ≡ page o l (c + 1) xs
  page_before n o l c x xs e =
      let front : o - (c + 1) ≡ n = omega (arith, e) in
      let same : c + 1 - o ≡ c - o = omega (arith, e) in
      ap (λ k. if l == 0 then drop k (x ∷ xs) else take (l - (c - o)) (drop k (x ∷ xs))) (sym e)
      ∙ sym (
          ap (λ k. if l == 0 then drop k xs else take (l - (c + 1 - o)) (drop k xs)) front
          ∙ ap (λ k. if l == 0 then drop n xs else take (l - k) (drop n xs)) same)

  -- The limit is reached.
  pub page_full :
      (o l c : ℕ) (xs : List X) → (not (l == 0) && leb l (c - o)) ≡ true → page o l c xs ≡ []
  page_full o l c xs h =
      let some_ : (l == 0) ≡ false = ground arith in
      let none_left : l - (c - o) ≡ 0 = ground arith in
      rw some_ (ap (λ k. take k (drop (o - c) xs)) none_left)

  -- A record within the page is its first.
  pub page_within :
      (o l c : ℕ) (x : X) (xs : List X)
      → 0 ≡ o - c
      → (not (l == 0) && leb l (c - o)) ≡ false
      → page o l c (x ∷ xs) ≡ x ∷ page o l (c + 1) xs
  page_within o l c x xs e h =
      let none_before : o - (c + 1) ≡ 0 = omega (arith, e) in
      elim (Bool-cases (l == 0)) [
        | inl all ↦
            rw all (ap (λ k. drop k (x ∷ xs)) (sym e) ∙ ap (λ k. x ∷ drop k xs) (sym none_before))
        | inr some_ ↦
            let more : l - (c - o) ≡ suc (l - (c + 1 - o)) = ground arith in
            rw some_ (
              ap (λ k. take (l - (c - o)) (drop k (x ∷ xs))) (sym e)
              ∙ ap (λ k. take k (x ∷ xs)) more
              ∙ ap (λ k. x ∷ take (l - (c + 1 - o)) (drop k xs)) (sym none_before))
      ]
