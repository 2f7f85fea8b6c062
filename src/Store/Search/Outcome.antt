-- ===== src/Store/Search/Outcome.antt =====
-- internal/store/search.go: what comes of `searchLog`.
use native.Mathlib.Nat.{sub-zero}
use ayd.Common.{
  ℕ, zero, suc, ◌+◌, ◌-◌, ◌*◌, ◌≤◌, ◌<◌, ◌⊎◌, true, false, [], ◌∷◌, ◌++◌, Option, none, some, Bytes,
  ltb, leb, ◌==◌, length, take, drop, ◌≡◌, refl, arith, inl, inr, Bool-cases,
}
use Prim.Native.Nat.{◌/◌}
use ayd.Api.Record.{Time}
use ayd.Store.Search.{
  Decoder, Search, newline, moved, line_end, search_step, search_loop, search_log, first_search,
}
use ayd.Store.Search.Ends.{weight, search_loop-ends}
use ayd.Store.Search.Behind.{Behind, HasTimes, search_loop-Behind}

-- More turns than the loop has on a file of `size` bytes.
abbrev pub enough : ℕ → ℕ
enough size = size * (size + 2) + (size + 1) + size + 1

weight-first_search : (size : ℕ) → weight size (first_search size) < enough size
unfolding weight
weight-first_search size =
    let sum : (size - 0) * (size + 2) + (size + 1 - size / 2) + (size - 256) < enough size =
      rw sub-zero (omega arith) in
    sum

-- On a file that ends with a newline or is no longer than the accuracy, in which every object has a
-- time of its own, the search ends. It ends at the start, or right behind a line end before which a
-- text is read as an object with a time before the target: what it skips ends with an older record.
pub search_log-Behind :
    (d : Decoder) (content : Bytes) (target : Time) (accuracy : ℕ)
    → ((body : Bytes) × (content ≡ body ++ newline ∷ [])) ⊎ (length content ≤ accuracy)
    → HasTimes d content
    → (p : ℕ) × (search_log d (enough (length content)) content target accuracy ≡ some p)
      × Behind d content target p
unfolding search_log
search_log-Behind d content target accuracy (inr short) times =
    let small : leb (length content) accuracy ≡ true = ground arith in (0, rw small refl, inl refl)
search_log-Behind d content target accuracy (inl (body, ends)) times =
    elim (Bool-cases (leb (length content) accuracy)) [
      | inl short ↦ (0, rw short refl, inl refl)
      | inr long ↦
          let (p, e) =
            search_loop-ends d content body target accuracy (enough (length content))
              (first_search (length content)) ends (omega arith)
              (weight-first_search (length content)) in
          (
            p,
            rw long e,
            search_loop-Behind d content target (enough (length content)) accuracy p _ times
                (inl refl) e,
          )
    ]

line_end-take : (n : ℕ) (s : Bytes) → line_end s ≡ none → line_end (take n s) ≡ none
unfolding line_end
line_end-take zero s e = refl
line_end-take (suc n) [] e = refl
line_end-take (suc n) (c ∷ s) e = elim (Bool-cases (c == newline)) [
  | inl here ↦ absurd (ground arith)
  | inr there ↦ rw (there, line_end-take n s (go (line_end s) (rw there at e))) refl
]
  where
    go : (o : Option ℕ) → moved o ≡ none → o ≡ none
    go none h = refl
    go (some j) h = absurd (cc)

search_loop_stuck :
    (d : Decoder) (content : Bytes) (target : Time) (accuracy fuel : ℕ) (s : Search)
    → line_end (drop s.mid content) ≡ none
    → s.mid < length content
    → s.left + accuracy < s.right
    → search_loop d fuel content target accuracy s ≡ none
unfolding search_loop search_step
search_loop_stuck d content target accuracy zero s e within more = refl
search_loop_stuck d content target accuracy (suc fuel) s e within more =
    let again : ltb (s.left + accuracy) s.right ≡ true = ground arith in
    let inside : leb (length content) s.mid ≡ false = ground arith in
    rw (again, search_loop, inside, line_end-take s.buf (drop s.mid content) e)
      (search_loop_stuck d content target accuracy fuel (record s { buf = s.buf * 2 }) e within
        more)

-- On a file longer than the accuracy that has no newline from its middle on, the search never ends:
-- it doubles its buffer for ever.
pub search_log_stuck :
    (d : Decoder) (content : Bytes) (target : Time) (accuracy fuel : ℕ)
    → accuracy < length content
    → line_end (drop (length content / 2) content) ≡ none
    → search_log d fuel content target accuracy ≡ none
unfolding search_log
search_log_stuck d content target accuracy fuel long e =
    let more : leb (length content) accuracy ≡ false = ground arith in
    rw more (
      search_loop_stuck d content target accuracy fuel (first_search (length content)) e
        (omega arith) (omega arith))
