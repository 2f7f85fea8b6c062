-- ===== src/Store/Scanner/Merge.antt =====
-- internal/store/scanner.go: the set of scanners takes the earliest record of its files.
use mathlib.Core.Path.{subst}
use mathlib.Core.List.{Permᴰ}
use mathlib.Core.List.Permᴰ
use ayd.Common.{
  ℕ, zero, suc, ◌+◌, ◌≤◌, ◌<◌, Bool, true, false, List, [], ◌∷◌, ◌++◌, Option, none, some, ltb,
  if◌then◌else◌, get_elem?, length, ◌≡◌, ◌≢◌, ◌⊎◌, refl, sym, ap, arith, tests, All, ltb→lt, inl,
  inr, ◌∙◌,
}
use ayd.Api.Record.{Time, Record}
use ayd.Store.History.Order.{Rises, NotBefore}
use ayd.Store.Scanner.{
  FileScanner, FileScannerSet, far, earliest_from, update_earliest, set_at, remove_at,
}
use ayd.Store.Scanner.File.{kept, stream, stream_of}

pub All-perm {ℓ κ} :
    {A : Type ℓ} (P : A → Type κ) {xs ys : List A} → Permᴰ xs ys → All P xs → All P ys
All-perm P Permᴰ.nil h = tt
All-perm P (Permᴰ.cons e p) h = (rw (← e) h.0, All-perm P p h.1)
All-perm P (Permᴰ.swap e e') h = (rw e' at h.1.0, (rw e at h.0, h.1.1))
All-perm P (Permᴰ.trans p q) h = All-perm P q (All-perm P p h)

pub length-perm {ℓ} : {A : Type ℓ} {xs ys : List A} → Permᴰ xs ys → length xs ≡ length ys
length-perm Permᴰ.nil = refl
length-perm (Permᴰ.cons e p) = ap suc (length-perm p)
length-perm (Permᴰ.swap e e') = refl
length-perm (Permᴰ.trans p q) = length-perm p ∙ length-perm q

module _ {X : Type 0} where
  abbrev pub Heads : (Record X → Type 0) → FileScanner X → Type 0
  Heads P s = P s.rec

  -- The scanner at `k` has the earliest record of all.
  pub record IsEarliest (ss : List (FileScanner X)) (k : ℕ) : Type 0 where
    pub scanner : FileScanner X
    pub here : get_elem? ss k ≡ some scanner
    pub first : All (Heads (NotBefore scanner.rec)) ss

  -- What `updateEarliest` comes to: no record is before `min`, or the earliest one is found.
  abbrev Picked : ℕ → Time → ℕ → List (FileScanner X) → ℕ → Type 0
  Picked i min e ss j =
      (All (λ (x : FileScanner X). min ≤ x.rec.time) ss × (j ≡ e))
      ⊎ ((k : ℕ) × (earliest : IsEarliest ss k) × (j ≡ i + k) × (earliest.scanner.rec.time < min))

  All-weaken :
      (a b : Time) (ss : List (FileScanner X))
      → a ≤ b
      → All (λ (x : FileScanner X). b ≤ x.rec.time) ss
      → All (λ (x : FileScanner X). a ≤ x.rec.time) ss
  All-weaken a b [] h all = tt
  All-weaken a b (x ∷ ss) h all = (omega arith, All-weaken a b ss h all.1)

  Picked-cons :
      (i e j : ℕ) (min : Time) (s : FileScanner X) (ss : List (FileScanner X)) (first : Bool)
      → ltb s.rec.time min ≡ first
      → Picked (suc i) (if first then s.rec.time else min) (if first then i else e) ss j
      → Picked i min e (s ∷ ss) j
  Picked-cons i e j min s ss true h (inl (all, same)) = inr (
    0,
    record { scanner = s; here = refl; first = (omega arith, all) },
    omega arith,
    ltb→lt _ _ h,
  )
  Picked-cons i e j min s ss true h (inr (k, earliest, at, lt)) = inr (
    suc k,
    record {
      scanner = earliest.scanner;
      here = earliest.here;
      first = (omega arith, earliest.first);
    },
    omega arith,
    omega (tests, h),
  )
  Picked-cons i e j min s ss false h (inl (all, same)) = inl ((omega (tests, h), all), same)
  Picked-cons i e j min s ss false h (inr (k, earliest, at, lt)) = inr (
    suc k,
    record {
      scanner = earliest.scanner;
      here = earliest.here;
      first = (omega (tests, h), earliest.first);
    },
    omega arith,
    lt,
  )

  earliest_from-Picked :
      (i e : ℕ) (min : Time) (ss : List (FileScanner X))
      → Picked i min e ss (earliest_from i min e ss)
  unfolding earliest_from
  earliest_from-Picked i e min [] = inl (tt, refl)
  earliest_from-Picked i e min (s ∷ ss) =
      Picked-cons i e _ min s ss (ltb s.rec.time min) refl (earliest_from-Picked (suc i) _ _ ss)

  -- After `updateEarliest` the earliest record is that of the scanner at `earliest`.
  pub update_earliest-IsEarliest :
      (r : FileScannerSet X)
      → r.scanners ≢ []
      → All (Heads (λ x. x.time < far)) r.scanners
      → IsEarliest r.scanners (update_earliest r).earliest
  update_earliest-IsEarliest r full near =
      go r.scanners full near (earliest_from-Picked 0 r.earliest far r.scanners)
    where
      go :
          (ss : List (FileScanner X))
          → ss ≢ []
          → All (Heads (λ x. x.time < far)) ss
          → Picked 0 far r.earliest ss (earliest_from 0 far r.earliest r.scanners)
          → IsEarliest ss (earliest_from 0 far r.earliest r.scanners)
      go [] some_there near p = absurd (some_there refl)
      go (s ∷ ss) some_there near (inl (all, same)) = absurd (omega (arith, all.0, near.0))
      go (s ∷ ss) some_there near (inr (k, earliest, at, lt)) =
          let e : earliest_from 0 far r.earliest r.scanners ≡ k = omega (arith, at) in rw e earliest

module _ {X : Type 0} (since until : Time) where
  -- All records that the scanners still give.
  abbrev pub pool : List (FileScanner X) → List (Record X)
  pool [] = []
  pool (s ∷ ss) = stream since until s ++ pool ss

  -- The scanners after one of them was read: it has gone on, or it is removed.
  abbrev pub advance : ℕ → Option (FileScanner X) → List (FileScanner X) → List (FileScanner X)
  advance k none ss = remove_at k ss
  advance k (some s) ss = set_at k s ss

  advance-zero :
      (o : Option (FileScanner X)) (s : FileScanner X) (ss : List (FileScanner X))
      → pool (advance zero o (s ∷ ss)) ≡ stream_of since until o ++ pool ss
  unfolding remove_at set_at
  advance-zero none s ss = refl
  advance-zero (some t) s ss = refl

  advance-suc :
      (k : ℕ) (o : Option (FileScanner X)) (s : FileScanner X) (ss : List (FileScanner X))
      → advance (suc k) o (s ∷ ss) ≡ s ∷ advance k o ss
  unfolding remove_at set_at
  advance-suc k none s ss = refl
  advance-suc k (some t) s ss = refl

  -- Reading takes its record from the pool, and nothing else.
  pub pool-advance :
      (k : ℕ) (o : Option (FileScanner X)) (s : FileScanner X) (ss : List (FileScanner X))
      → get_elem? ss k ≡ some s
      → stream_of since until o ≡ kept since until s.lines
      → Permᴰ (pool ss) (s.rec ∷ pool (advance k o ss))
  pool-advance k o s [] e same = absurd (cc)
  pool-advance zero o s (x ∷ ss) e same =
      let here : x ≡ s = ground arith in rw (advance-zero o x ss, same, here) (Permᴰ.refl _)
  pool-advance (suc k) o s (x ∷ ss) e same = rw (advance-suc k o x ss) (
      Permᴰ.trans (Permᴰ.append_left (stream since until x) (pool-advance k o s ss e same))
        (Permᴰ.middle s.rec (stream since until x) _))

  -- Each file is in the order of time.
  abbrev pub Ordered : List (FileScanner X) → Type 0
  Ordered ss = All (λ s. Rises (stream since until s)) ss

  pub advance-Ordered :
      (k : ℕ) (o : Option (FileScanner X)) (s : FileScanner X) (ss : List (FileScanner X))
      → get_elem? ss k ≡ some s
      → stream_of since until o ≡ kept since until s.lines
      → Ordered ss
      → Ordered (advance k o ss)
  unfolding remove_at set_at
  advance-Ordered k o s [] e same h = absurd (cc)
  advance-Ordered zero none s (x ∷ ss) e same h = h.1
  advance-Ordered zero (some t) s (x ∷ ss) e same h =
      let here : x ≡ s = ground arith in
      (subst Rises (sym same) (subst (λ u. Rises (kept since until u.lines)) here h.0.1), h.1)
  advance-Ordered (suc k) o s (x ∷ ss) e same h =
      rw (advance-suc k o x ss) (h.0, advance-Ordered k o s ss e same h.1)
