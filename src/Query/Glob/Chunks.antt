-- ===== src/Query/Glob/Chunks.antt =====
-- internal/query/stringmatcher.go: the search for the chunks loses no match, though each chunk takes
-- the first place where it stands, and no slice is out of range.
use mathlib.Core.Path.{subst}
use ayd.Common.{
  ℕ, ◌+◌, ◌-◌, ◌≤◌, Bool, true, false, ◌≡◌, refl, sym, ap, ◌∙◌, inl, inr, List, [], ◌∷◌, ◌++◌,
  Option, none, some, Bytes, length, take, drop, arith, Option-cases, append_assoc, length-append,
  length-take, length-drop, take-append-drop, drop-append, drop-append_le, take-append_ge,
  drop-drop,
}
use ayd.Query.Glob.{index, slice, match_chunks}
use ayd.Query.Glob.Pattern.{Gaps, Gaps-append}
use ayd.Query.Glob.Index.{index_sound, index_complete, index_fits}

-- The total length of the chunks.
abbrev pub total : List Bytes → ℕ
total [] = 0
total (c ∷ cs) = length c + total cs

-- The answer is there, so that nothing has panicked, and it is right about `P`.
abbrev pub Decides : Type 0 → Option Bool → Type 0
Decides P none = ⊥
Decides P (some true) = P
Decides P (some false) = ¬ P

pub Decides-map : (P Q : Type 0) (o : Option Bool) → (P → Q) → (Q → P) → Decides P o → Decides Q o
Decides-map P Q none f g h = h
Decides-map P Q (some true) f g h = f h
Decides-map P Q (some false) f g h = λ q. h (g q)

module _ (suffix : Bytes) where
  -- What the text must end with.
  abbrev pub Ending : Bytes → Type 0
  Ending v = v ≡ suffix

  pub Gaps-length :
      (cs : List Bytes) (t : Bytes) → Gaps cs Ending t → total cs + length suffix ≤ length t
  Gaps-length [] t (w, v, e, k) = omega (arith, ap length e, length-append w v, ap length k)
  Gaps-length (c ∷ cs) t (w, u, e, (v, e', k)) =
      omega
        (arith, ap length e, length-append w u, ap length e', length-append c v, Gaps-length cs v k)

  -- A match of the chunk shows the chunk in the window, which leaves room for what follows.
  in_window :
      (c : Bytes) (cs : List Bytes) (n : ℕ) (w v : Bytes)
      → n + total cs + length suffix ≡ length (w ++ (c ++ v))
      → Gaps cs Ending v
      → (r : Bytes) × (take n (w ++ (c ++ v)) ≡ w ++ (c ++ r))
  in_window c cs n w v room k =
      let low : length w + length c ≤ n =
        omega (arith, Gaps-length cs v k, length-append w (c ++ v), length-append c v) in
      (
        take (n - length w - length c) v,
        take-append_ge n w (c ++ v) (omega arith)
            ∙ ap (λ x. w ++ x) (take-append_ge (n - length w) c v (omega arith)),
      )

  Gaps-absent :
      (c : Bytes) (cs : List Bytes) (n : ℕ) (u : Bytes)
      → n + total cs + length suffix ≡ length u
      → index (take n u) c ≡ none
      → ¬ Gaps (c ∷ cs) Ending u
  Gaps-absent c cs n u room absent (w, x, e, (v, e', k)) =
      let eu : u ≡ w ++ (c ++ v) = e ∙ ap (λ y. w ++ y) e' in
      let (r, er) = in_window c cs n w v (room ∙ ap length eu) k in
      let (i, found, low) = index_complete w c r in
      absurd (cc (sym absent ∙ ap (λ y. index (take n y) c) eu ∙ ap (λ y. index y c) er ∙ found))

  Gaps-after :
      (c : Bytes) (cs : List Bytes) (n : ℕ) (u : Bytes) (i : ℕ)
      → n + total cs + length suffix ≡ length u
      → index (take n u) c ≡ some i
      → Gaps (c ∷ cs) Ending u
      → Gaps cs Ending (drop (i + length c) u)
  Gaps-after c cs n u i room found (w, x, e, (v, e', k)) =
      let eu : u ≡ w ++ (c ++ v) = e ∙ ap (λ y. w ++ y) e' in
      let (r, er) = in_window c cs n w v (room ∙ ap length eu) k in
      let (j, found', low) = index_complete w c r in
      let same : some i ≡ some j =
        sym found ∙ ap (λ y. index (take n y) c) eu ∙ ap (λ y. index y c) er ∙ found' in
      let ij : i ≡ j = cc same in
      let rest : drop (i + length c) u ≡ drop (i + length c) (w ++ c) ++ v =
        ap (drop (i + length c)) (eu ∙ sym (append_assoc w c v))
        ∙ drop-append_le (i + length c) (w ++ c) v (omega (arith, length-append w c)) in
      subst (λ y. Gaps cs Ending y) (sym rest) (Gaps-append cs Ending _ v k)

  Gaps-before :
      (c : Bytes) (cs : List Bytes) (n : ℕ) (u : Bytes) (i : ℕ)
      → index (take n u) c ≡ some i
      → Gaps cs Ending (drop (i + length c) u)
      → Gaps (c ∷ cs) Ending u
  Gaps-before c cs n u i found k =
      let (w, v, e, low) = index_sound (take n u) c i found in
      let eu : u ≡ w ++ (c ++ (v ++ drop n u)) =
        sym (take-append-drop n u)
        ∙ ap (λ y. y ++ drop n u) e
        ∙ append_assoc w (c ++ v) (drop n u)
        ∙ ap (λ y. w ++ y) (append_assoc c v (drop n u)) in
      let rest : drop (i + length c) u ≡ v ++ drop n u =
        ap (drop (i + length c)) (eu ∙ sym (append_assoc w c (v ++ drop n u)))
        ∙ ap (λ j. drop j ((w ++ c) ++ (v ++ drop n u))) (omega (arith, length-append w c))
        ∙ drop-append (w ++ c) (v ++ drop n u) in
      (w, c ++ (v ++ drop n u), eu, (v ++ drop n u, refl, subst (λ y. Gaps cs Ending y) rest k))

slice_eq :
    (s : Bytes) (left right : ℕ)
    → left ≤ right
    → right ≤ length s
    → slice s left right ≡ some (take (right - left) (drop left s))
unfolding slice
slice_eq s left right h k = ground arith

module _ (s suffix w : Bytes) (pre : s ≡ w ++ suffix) where
  -- After the prefix, whatever is left of the chunks: the loop answers, and rightly.
  pub match_chunks-Decides :
      (chunks : List Bytes) (left right : ℕ)
      → right + total chunks + length suffix ≡ length s
      → left ≤ right
      → Decides (Gaps chunks (Ending suffix) (drop left s)) (match_chunks s left right chunks)
  unfolding match_chunks
  match_chunks-Decides [] left right room low = (
    drop left w,
    suffix,
    ap (drop left) pre
        ∙ drop-append_le left w suffix (omega (arith, ap length pre, length-append w suffix)),
    refl,
  )
  match_chunks-Decides (c ∷ cs) left right room low =
      let u = drop left s in
      let right' = right + length c in
      let n = right' - left in
      let room' : n + total cs + length suffix ≡ length u = omega (arith, length-drop left s) in
      rw (slice_eq s left right' (omega arith) (omega arith))
        (elim (Option-cases (index (take n u) c)) [
          | inl absent ↦ rw absent (Gaps-absent suffix c cs n u room' absent)
          | inr (i, found) ↦
              let jumped : drop (i + length c) u ≡ drop (left + (i + length c)) s =
                drop-drop left (i + length c) (left + (i + length c)) s refl in
              rw found (
                Decides-map _ _ _
                  (λ k.
                    Gaps-before suffix c cs n u i found
                      (subst (λ y. Gaps cs (Ending suffix) y) (sym jumped) k))
                  (λ k.
                    subst (λ y. Gaps cs (Ending suffix) y) jumped
                      (Gaps-after suffix c cs n u i room' found k))
                  (match_chunks-Decides cs (left + (i + length c)) right' (omega arith)
                    (omega (arith, index_fits (take n u) c i found, length-take n u))))
        ])
