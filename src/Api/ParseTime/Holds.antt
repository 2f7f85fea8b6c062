-- ===== src/Api/ParseTime/Holds.antt =====
-- lib-ayd/time.go: parsers that read no byte out of range, and the parsers of digits.
use ayd.Common.{
  ℕ, zero, suc, ◌+◌, ◌-◌, ◌≤◌, ◌<◌, Bool, true, false, [], ◌∷◌, Bytes, ltb, if◌then◌else◌, length,
  ◌≡◌, ◌≢◌, refl, arith,
}
use ayd.Api.ParseTime.{
  Read, value, reject, panic, ◌>>=◌, both, at, at_end, is_not_digit, digit_at, parse_4_digits,
  parse_2_digits,
}

-- There is no panic, and what is returned has the property.
abbrev pub Holds {ℓ} : {A : Type ℓ} → (A → Type 0) → Read A → Type 0
Holds P (value a) = P a
Holds P reject = Unit
Holds P panic = ⊥

abbrev pub Always {ℓ} : {A : Type ℓ} → A → Type 0
Always a = Unit

module _ {ℓ κ} {A : Type ℓ} {B : Type κ} where
  pub Holds->>= :
      (P : A → Type 0) (Q : B → Type 0) (m : Read A) (f : A → Read B)
      → Holds P m
      → ((a : A) → P a → Holds Q (f a))
      → Holds Q (m >>= f)
  Holds->>= P Q (value a) f h k = k a h
  Holds->>= P Q reject f h k = tt
  Holds->>= P Q panic f h k = absurd h

  pub Holds-both :
      (a : Read A) (b : Read B) → Holds Always a → Holds Always b → Holds Always (both a b)
  Holds-both (value a) (value b) h k = tt
  Holds-both (value a) reject h k = tt
  Holds-both (value a) panic h k = absurd k
  Holds-both reject (value b) h k = tt
  Holds-both reject reject h k = tt
  Holds-both reject panic h k = absurd k
  Holds-both panic b h k = absurd h

module _ {ℓ} {A : Type ℓ} (P : A → Type 0) where
  pub Holds-at :
      (s : Bytes) (i : ℕ) (f : ℕ → Read A)
      → i < length s
      → ((c : ℕ) → Holds P (f c))
      → Holds P (at s i f)
  Holds-at [] i f h k = absurd (omega arith)
  Holds-at (c ∷ s) zero f h k = k c
  Holds-at (c ∷ s) (suc i) f h k = Holds-at s i f (omega arith) k

  pub Holds-at_end :
      (s : Bytes) (i : ℕ) (f : ℕ → Read A)
      → 1 ≤ i
      → i ≤ length s
      → ((c : ℕ) → Holds P (f c))
      → Holds P (at_end s i f)
  Holds-at_end s i f lo hi k =
      let within : ltb (length s) i ≡ false = ground arith in
      rw within (Holds-at s (length s - i) f (omega arith) k)

  pub Holds-if :
      (b : Bool) (x y : Read A)
      → (b ≡ true → Holds P x)
      → (b ≡ false → Holds P y)
      → Holds P (if b then x else y)
  Holds-if true x y h k = h refl
  Holds-if false x y h k = k refl

pub digit_at-Holds : (s : Bytes) (i : ℕ) → i < length s → Holds Always (digit_at s i)
unfolding digit_at
digit_at-Holds s i h =
    Holds-at Always s i _ h (λ c. Holds-if Always (is_not_digit c) _ _ (λ _. tt) (λ _. tt))

pub parse_2_digits-Holds :
    (s : Bytes) (i : ℕ) → i + 1 < length s → Holds Always (parse_2_digits s i)
unfolding parse_2_digits
parse_2_digits-Holds s i h =
    Holds->>= Always Always _ _ (digit_at-Holds s i (omega arith))
      (λ a _. Holds->>= Always Always _ _ (digit_at-Holds s (i + 1) h) (λ b _. tt))

pub parse_4_digits-Holds : (s : Bytes) → 4 ≤ length s → Holds Always (parse_4_digits s)
unfolding parse_4_digits
parse_4_digits-Holds s h = Holds->>= Always Always _ _ (digit_at-Holds s 0 (omega arith)) (λ a _.
    Holds->>= Always Always _ _ (digit_at-Holds s 1 (omega arith)) (λ b _.
      Holds->>= Always Always _ _ (digit_at-Holds s 2 (omega arith))
        (λ c _. Holds->>= Always Always _ _ (digit_at-Holds s 3 (omega arith)) (λ d _. tt))))

pub Holds-no_panic {ℓ} : {A : Type ℓ} (m : Read A) → Holds Always m → m ≢ panic
Holds-no_panic (value a) h e = cc
Holds-no_panic reject h e = cc
Holds-no_panic panic h e = h
