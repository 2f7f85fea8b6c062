-- ===== src/Scheme/Search/Least.antt =====
-- What `sort.Search` finds: the fuel is enough, and the result is the least index.
use Prim.Native.Nat.{◌/◌}
use ayd.Common.{
  ℕ, zero, suc, ◌+◌, ◌-◌, ◌≤◌, ◌<◌, Bool, true, false, ◌≡◌, ltb, arith, Bool-cases, inl, inr, tests,
  sym, ◌∙◌,
}
use mathlib.Core.Path.{subst}
use mathlib.Core.Bool.{false≢true}
use ayd.Scheme.Search.{search_from, sort_search}

-- Once true, true from there on.
abbrev pub Monotone : (ℕ → Bool) → Type 0
Monotone f = (k l : ℕ) → k ≤ l → f k ≡ true → f l ≡ true

-- The index is the least from `i` on at which `f` holds, or it is `j` and there is none before.
pub record IsLeast (f : ℕ → Bool) (i j r : ℕ) : Type 0 where
  pub from : i ≤ r
  pub to : r ≤ j
  pub holds : r < j → f r ≡ true
  pub none_before : (k : ℕ) → i ≤ k → k < r → f k ≡ false

-- Nothing before a miss is a hit.
missed_before : (f : ℕ → Bool) (h k : ℕ) → Monotone f → f h ≡ false → k ≤ h → f k ≡ false
missed_before f h k m missed le = elim (Bool-cases (f k)) [
  | inl hit ↦ absurd (false≢true (sym missed ∙ m k h le hit))
  | inr miss ↦ miss
]

lower_half : (f : ℕ → Bool) (i h j r : ℕ) → f h ≡ true → h < j → IsLeast f i h r → IsLeast f i j r
lower_half f i h j r found low l = record {
  from = l.from;
  to = omega (arith, l.to);
  holds = λ _. elim (Bool-cases (ltb r h)) [
    | inl before ↦ l.holds (omega tests)
    | inr at ↦ let same : h ≡ r = omega (tests, l.to) in subst (λ x. f x ≡ true) same found
  ];
  none_before = l.none_before;
}

upper_half :
    (f : ℕ → Bool) (i h j r : ℕ)
    → Monotone f
    → f h ≡ false
    → i ≤ h
    → IsLeast f (h + 1) j r
    → IsLeast f i j r
upper_half f i h j r m missed low l = record {
  from = omega (arith, l.from);
  to = l.to;
  holds = l.holds;
  none_before = λ k from before. elim (Bool-cases (ltb h k)) [
    | inl above ↦ l.none_before k (omega tests) before
    | inr below ↦ missed_before f h k m missed (omega tests)
  ];
}

search_from-IsLeast :
    (fuel i j : ℕ) (f : ℕ → Bool)
    → Monotone f
    → i ≤ j
    → j - i ≤ fuel
    → IsLeast f i j (search_from fuel i j f)
unfolding search_from
search_from-IsLeast zero i j f m le enough = record {
  from = omega arith;
  to = omega arith;
  holds = λ low. absurd (omega arith);
  none_before = λ k low high. absurd (omega arith);
}
search_from-IsLeast (suc fuel) i j f m le enough = elim (Bool-cases (ltb i j)) [
  | inl some_left ↦ rw some_left (elim (Bool-cases (f ((i + j) / 2))) [
    | inl found ↦ rw found (
        lower_half f i ((i + j) / 2) j _ found (omega tests)
          (search_from-IsLeast fuel i ((i + j) / 2) f m (omega tests) (omega tests)))
    | inr missed ↦ rw missed (
        upper_half f i ((i + j) / 2) j _ m missed (omega tests)
          (search_from-IsLeast fuel ((i + j) / 2 + 1) j f m (omega tests) (omega tests)))
  ])
  | inr none_left ↦ rw none_left (record {
    from = omega arith;
    to = omega arith;
    holds = λ low. absurd (omega tests);
    none_before = λ k low high. absurd (omega arith);
  })
]

-- `sort.Search` on a test that stays true once it is: the result is the least index at which the
-- test holds, or the length if it holds at none.
pub sort_search-IsLeast : (n : ℕ) (f : ℕ → Bool) → Monotone f → IsLeast f 0 n (sort_search n f)
unfolding sort_search
sort_search-IsLeast n f m = search_from-IsLeast n 0 n f m (omega arith) (omega arith)
