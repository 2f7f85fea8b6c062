-- ===== src/Query/Glob/Index.antt =====
-- internal/query/stringmatcher.go: what the searches of package strings find.
use ayd.Common.{
  ℕ, suc, ◌+◌, ◌≤◌, true, ◌≡◌, refl, ap, inl, inr, [], ◌∷◌, ◌++◌, some, Bytes, length, arith,
  Bool-cases, Option-cases, length-append,
}
use ayd.Query.Glob.{has_prefix, index}

pub has_prefix-append : (p v : Bytes) → has_prefix (p ++ v) p ≡ true
unfolding has_prefix
has_prefix-append [] v = has_prefix_nil v
  where
    has_prefix_nil : (s : Bytes) → has_prefix s [] ≡ true
    has_prefix_nil [] = refl
    has_prefix_nil (x ∷ s) = refl
has_prefix-append (x ∷ p) v = ground (arith, has_prefix-append p v)

pub has_prefix_sound : (s p : Bytes) → has_prefix s p ≡ true → (v : Bytes) × (s ≡ p ++ v)
unfolding has_prefix
has_prefix_sound [] [] h = ([], refl)
has_prefix_sound (y ∷ s) [] h = (y ∷ s, refl)
has_prefix_sound [] (x ∷ p) h = cc
has_prefix_sound (y ∷ s) (x ∷ p) h =
    let (v, e) = has_prefix_sound s p (ground arith) in (v, ground arith)

-- Where `index` finds the text.
pub index_sound :
    (s sub : Bytes) (i : ℕ)
    → index s sub ≡ some i
    → (w : Bytes) × (v : Bytes) × (s ≡ w ++ (sub ++ v)) × (length w ≡ i)
unfolding index
index_sound [] sub i h = elim (Bool-cases (has_prefix [] sub)) [
  | inl yes_prefix ↦ let (v, e) = has_prefix_sound [] sub yes_prefix in ([], v, e, ground arith)
  | inr no_prefix ↦ absurd (ground arith)
]
index_sound (x ∷ s) sub i h = elim (Bool-cases (has_prefix (x ∷ s) sub)) [
  | inl yes_prefix ↦
      let (v, e) = has_prefix_sound (x ∷ s) sub yes_prefix in ([], v, e, ground arith)
  | inr no_prefix ↦ elim (Option-cases (index s sub)) [
    | inl no_index ↦ absurd (ground arith)
    | inr (j, found) ↦
        let (w, v, e, n) = index_sound s sub j found in (x ∷ w, v, ap (◌∷◌ x) e, ground arith)
  ]
]

-- `index` finds the text, and at the first place.
pub index_complete :
    (w sub v : Bytes) → (i : ℕ) × (index (w ++ (sub ++ v)) sub ≡ some i) × (i ≤ length w)
unfolding index
index_complete [] sub v = (0, at_start (sub ++ v) sub (has_prefix-append sub v), omega arith)
  where
    at_start : (s sub : Bytes) → has_prefix s sub ≡ true → index s sub ≡ some 0
    at_start [] sub h = ground arith
    at_start (x ∷ s) sub h = ground arith
index_complete (x ∷ w) sub v =
    let (i, found, low) = index_complete w sub v in
    elim (Bool-cases (has_prefix (x ∷ (w ++ (sub ++ v))) sub)) [
      | inl yes_prefix ↦ (0, ground arith, omega arith)
      | inr no_prefix ↦ (suc i, ground arith, omega arith)
    ]

pub index_fits : (s sub : Bytes) (i : ℕ) → index s sub ≡ some i → i + length sub ≤ length s
index_fits s sub i h =
    let (w, v, e, n) = index_sound s sub i h in
    omega (arith, ap length e, length-append w (sub ++ v), length-append sub v)
