-- ===== src/Store/History/Order.antt =====
-- internal/store/probehistory.go: the records of a target stay in the order of time, within the
-- limit, and complete up to the oldest.
use mathlib.Core.List.{reverse, reverse-cons, reverse_perm, Perm}
use mathlib.Core.List.Perm
use ayd.Common.{
  ◌≤◌, ◌+◌, ◌≡◌, refl, List, [], ◌∷◌, ◌++◌, inl, inr, length, ltb, arith, tests, All, All-append,
  All-reverse, Bool-cases, length-append,
}
use ayd.Api.Record.{Record}
use ayd.Store.History.{swap_back, insert_record, trim, probe_history_len}

module _ {X : Type 0} where
  abbrev NotAfter : Record X → Record X → Type 0
  NotAfter r x = x.time ≤ r.time

  -- In the order of time, the latest first.
  abbrev Falls : List (Record X) → Type 0
  Falls [] = Unit
  Falls (x ∷ xs) = All (NotAfter x) xs × Falls xs

  abbrev pub NotBefore : Record X → Record X → Type 0
  NotBefore r x = r.time ≤ x.time

  -- In the order of time, the latest last.
  abbrev pub Rises : List (Record X) → Type 0
  Rises [] = Unit
  Rises (x ∷ xs) = All (NotBefore x) xs × Rises xs

  All-NotAfter_trans :
      (a b : Record X) (xs : List (Record X))
      → a.time ≤ b.time
      → All (NotAfter a) xs
      → All (NotAfter b) xs
  All-NotAfter_trans a b [] h k = tt
  All-NotAfter_trans a b (x ∷ xs) h k = (omega arith, All-NotAfter_trans a b xs h k.1)

  All-swap_back :
      (P : Record X → Type 0) (r : Record X) (xs : List (Record X))
      → P r
      → All P xs
      → All P (swap_back r xs)
  unfolding swap_back
  All-swap_back P r [] p h = (p, tt)
  All-swap_back P r (x ∷ xs) p h = elim (Bool-cases (ltb r.time x.time)) [
    | inl later ↦ rw later (h.0, All-swap_back P r xs p h.1)
    | inr stop ↦ rw stop (p, h)
  ]

  swap_back-Falls : (r : Record X) (xs : List (Record X)) → Falls xs → Falls (swap_back r xs)
  unfolding swap_back
  swap_back-Falls r [] h = (tt, tt)
  swap_back-Falls r (x ∷ xs) h = elim (Bool-cases (ltb r.time x.time)) [
    | inl later ↦
        rw later (All-swap_back (NotAfter x) r xs (omega tests) h.0, swap_back-Falls r xs h.1)
    | inr stop ↦ rw stop ((omega tests, All-NotAfter_trans x r xs (omega tests) h.0), h)
  ]

  swap_back-perm : (r : Record X) (xs : List (Record X)) → Perm (swap_back r xs) (r ∷ xs)
  unfolding swap_back
  swap_back-perm r [] = Perm.refl (r ∷ [])
  swap_back-perm r (x ∷ xs) = elim (Bool-cases (ltb r.time x.time)) [
    | inl later ↦ rw later (Perm.trans (Perm.cons x (swap_back-perm r xs)) (Perm.swap r x xs))
    | inr stop ↦ rw stop (Perm.refl (r ∷ x ∷ xs))
  ]

  Rises-concat :
      (xs : List (Record X)) (r : Record X) → Rises xs → All (NotAfter r) xs → Rises (xs ++ r ∷ [])
  Rises-concat [] r h k = (tt, tt)
  Rises-concat (x ∷ xs) r h k =
      (All-append (NotBefore x) xs (r ∷ []) h.0 (k.0, tt), Rises-concat xs r h.1 k.1)

  Falls-concat :
      (xs : List (Record X)) (r : Record X) → Falls xs → All (NotBefore r) xs → Falls (xs ++ r ∷ [])
  Falls-concat [] r h k = (tt, tt)
  Falls-concat (x ∷ xs) r h k =
      (All-append (NotAfter x) xs (r ∷ []) h.0 (k.0, tt), Falls-concat xs r h.1 k.1)

  Rises-reverse : (xs : List (Record X)) → Falls xs → Rises (reverse xs)
  Rises-reverse [] h = tt
  Rises-reverse (x ∷ xs) h =
      rw (reverse-cons x xs)
        (Rises-concat (reverse xs) x (Rises-reverse xs h.1) (All-reverse (NotAfter x) xs h.0))

  Falls-reverse : (xs : List (Record X)) → Rises xs → Falls (reverse xs)
  Falls-reverse [] h = tt
  Falls-reverse (x ∷ xs) h =
      rw (reverse-cons x xs)
        (Falls-concat (reverse xs) x (Falls-reverse xs h.1) (All-reverse (NotBefore x) xs h.0))

  length-reverse : (xs : List (Record X)) → length (reverse xs) ≡ length xs
  length-reverse [] = refl
  length-reverse (x ∷ xs) =
      rw (reverse-cons x xs) (omega (arith, length-append (reverse xs) (x ∷ []), length-reverse xs))

  length-swap_back : (r : Record X) (xs : List (Record X)) → length (swap_back r xs) ≡ length xs + 1
  unfolding swap_back
  length-swap_back r [] = refl
  length-swap_back r (x ∷ xs) = ground (arith, length-swap_back r xs)

  pub length-insert_record :
      (xs : List (Record X)) (r : Record X) → length (insert_record xs r) ≡ length xs + 1
  unfolding insert_record
  length-insert_record xs r = omega (
    arith,
    length-reverse (swap_back r (reverse xs)),
    length-swap_back r (reverse xs),
    length-reverse xs,
  )

  -- A record goes into records that are in the order of time, whatever its own time is: the result
  -- is in the order of time and has the same records and the new one.
  pub insert_record-Rises :
      (xs : List (Record X)) (r : Record X)
      → Rises xs
      → Rises (insert_record xs r) × Perm (insert_record xs r) (r ∷ xs)
  unfolding insert_record
  insert_record-Rises xs r h = (
    Rises-reverse (swap_back r (reverse xs)) (swap_back-Falls r (reverse xs) (Falls-reverse xs h)),
    Perm.trans (reverse_perm (swap_back r (reverse xs)))
        (Perm.trans (swap_back-perm r (reverse xs)) (Perm.cons r (reverse_perm xs))),
  )

  pub Rises-trim : (xs : List (Record X)) → Rises xs → Rises (trim xs)
  unfolding trim
  Rises-trim [] h = tt
  Rises-trim (x ∷ xs) h = elim (Bool-cases (ltb probe_history_len (length (x ∷ xs)))) [
    | inl long ↦ rw long h.1
    | inr short ↦ rw short h
  ]

  pub length-trim :
      (xs : List (Record X))
      → length xs ≤ probe_history_len + 1
      → length (trim xs) ≤ probe_history_len
  unfolding trim
  length-trim [] h = omega arith
  length-trim (x ∷ xs) h = ground arith
