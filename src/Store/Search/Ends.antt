-- ===== src/Store/Search/Ends.antt =====
-- internal/store/search.go: each turn of the loop of `searchLog` brings it nearer to its end, where
-- the file ends with a newline.
use ayd.Common.{
  ℕ, zero, suc, ◌+◌, ◌-◌, ◌*◌, ◌≤◌, ◌<◌, Bool, [], ◌∷◌, ◌++◌, Option, none, some, Bytes, ltb, leb,
  ◌==◌, if◌then◌else◌, length, take, drop, ◌≡◌, refl, ap, arith, tests, inl, inr, Bool-cases,
  length-drop, length-append, drop-append_le,
}
use ayd.Api.Record.{Time}
use ayd.Store.Search.{
  Decoder, Search, newline, line_end, narrow, pass_line, on_time, on_object, on_line, on_chunk,
  search_step, search_loop,
}

-- What a turn of the loop makes less, for a file of `size` bytes: first the range, then what is left
-- behind the middle, then what the buffer lacks.
unfoldable pub weight : ℕ → Search → ℕ
weight size s = (s.right - s.left) * (size + 2) + (size + 1 - s.mid) + (size - s.buf)

pub record IsSearch (s : Search) : Type 0 where
  pub mid_after : s.left ≤ s.mid
  pub buf_some : 1 ≤ s.buf

-- A turn from `s` to `t`.
pub record Shrinks (size : ℕ) (s t : Search) : Type 0 where
  pub valid : IsSearch t
  pub lighter : weight size t < weight size s

product : (a b k : ℕ) → a < b → a * k + k ≤ b * k
product a b k h = grind arith

-- A smaller range is lighter, wherever the middle is.
smaller-Shrinks :
    (size : ℕ) (s t : Search)
    → IsSearch t
    → t.right - t.left < s.right - s.left
    → t.buf ≡ s.buf
    → Shrinks size s t
unfolding weight
smaller-Shrinks size s t v h e = record {
  valid = v;
  lighter = omega (arith, product (t.right - t.left) (s.right - s.left) (size + 2) h);
}

-- The same range with a later middle, or a longer buffer.
later-Shrinks :
    (size : ℕ) (s t : Search)
    → IsSearch t
    → t.right - t.left ≡ s.right - s.left
    → (size + 1 - t.mid) + (size - t.buf) < (size + 1 - s.mid) + (size - s.buf)
    → Shrinks size s t
unfolding weight
later-Shrinks size s t v e h = record { valid = v; lighter = rw e (omega arith) }

narrow-Shrinks :
    (d : Decoder) (size : ℕ) (s : Search) (target : Time) (n : ℕ) (t : Time)
    → IsSearch s
    → s.left < s.right
    → Shrinks size s (narrow d s target n t)
unfolding narrow
narrow-Shrinks d size s target n t v h = elim (Bool-cases (ltb t target)) [
  | inl old ↦ rw old (smaller-Shrinks size s _ (omega arith) (omega arith) refl)
  | inr new ↦ rw new (smaller-Shrinks size s _ (omega arith) (omega arith) refl)
]

pass_line-Shrinks :
    (d : Decoder) (size : ℕ) (s : Search) (n : ℕ)
    → IsSearch s
    → s.left < s.right
    → s.mid < size
    → Shrinks size s (pass_line d s n)
unfolding pass_line
pass_line-Shrinks d size s n v h within = elim (Bool-cases (leb s.right (s.mid + n + 1))) [
  | inl beyond ↦ rw beyond (smaller-Shrinks size s _ (omega arith) (omega arith) refl)
  | inr before ↦ rw before (later-Shrinks size s _ (omega arith) refl (omega arith))
]

on_time-Shrinks :
    (d : Decoder) (size : ℕ) (s : Search) (target : Time) (n : ℕ) (o : Option Time)
    → IsSearch s
    → s.left < s.right
    → s.mid < size
    → Shrinks size s (on_time d s target n o)
on_time-Shrinks d size s target n none v h within = pass_line-Shrinks d size s n v h within
on_time-Shrinks d size s target n (some t) v h within = narrow-Shrinks d size s target n t v h

on_object-Shrinks :
    (d : Decoder) (size : ℕ) (s : Search) (target : Time) (n : ℕ) (r : Bytes × Bool)
    → IsSearch s
    → s.left < s.right
    → s.mid < size
    → Shrinks size s (on_object d s target n r)
unfolding weight
on_object-Shrinks d size s target n (rec, ok) v h within =
    let later =
      on_time-Shrinks d size (record s { rec = rec }) target n
        (if ok then d.parse_time rec else none)
        (record { mid_after = v.mid_after; buf_some = v.buf_some }) h within in
    record { valid = later.valid; lighter = later.lighter }

on_chunk-Shrinks :
    (d : Decoder) (size : ℕ) (s : Search) (target : Time) (chunk : Bytes) (o : Option ℕ)
    → IsSearch s
    → s.left < s.right
    → s.mid < size
    → line_end chunk ≡ o
    → (o ≡ none → s.buf < size)
    → Shrinks size s (on_chunk d s target chunk o)
unfolding line_end on_line
on_chunk-Shrinks d size s target chunk none v h within e short =
    let lacks = short refl in later-Shrinks size s _ (omega arith) refl (omega arith)
on_chunk-Shrinks d size s target chunk (some zero) v h within e short =
    later-Shrinks size s _ (omega arith) refl (omega arith)
on_chunk-Shrinks d size s target [] (some (suc i)) v h within e short = absurd (cc)
on_chunk-Shrinks d size s target (c ∷ chunk) (some (suc i)) v h within e short =
    elim (Bool-cases (c == b'{')) [
      | inl object ↦ rw object (on_object-Shrinks d size s target _ _ v h within)
      | inr other ↦ rw other (pass_line-Shrinks d size s _ v h within)
    ]

-- A text that ends with a newline has one.
line_end-concat : (body : Bytes) → (i : ℕ) × (line_end (body ++ newline ∷ []) ≡ some i)
unfolding line_end
line_end-concat [] = (0, refl)
line_end-concat (c ∷ body) =
    let (i, e) = line_end-concat body in
    elim (Bool-cases (c == newline)) [
      | inl here ↦ (0, rw here refl)
      | inr there ↦ (suc i, rw (there, e) refl)
    ]

take_whole : (n : ℕ) (s : Bytes) → length s ≤ n → take n s ≡ s
take_whole zero [] h = refl
take_whole zero (c ∷ s) h = absurd (omega arith)
take_whole (suc n) [] h = refl
take_whole (suc n) (c ∷ s) h = ap (◌∷◌ c) (take_whole n s (omega arith))

-- A buffer without a newline is shorter than the file.
buf-lt :
    (content body : Bytes) (s : Search)
    → content ≡ body ++ newline ∷ []
    → s.mid < length content
    → line_end (take s.buf (drop s.mid content)) ≡ none
    → s.buf < length content
buf-lt content body s ends within e = elim (Bool-cases (ltb s.buf (length content))) [
  | inl short ↦ omega (tests, short)
  | inr long ↦
      let all : take s.buf (drop s.mid content) ≡ drop s.mid content =
        take_whole s.buf _ (omega (tests, long, length-drop s.mid content)) in
      let size : length content ≡ length body + 1 = rw ends (length-append body (newline ∷ [])) in
      let split : drop s.mid content ≡ drop s.mid body ++ newline ∷ [] =
        rw ends (drop-append_le s.mid body (newline ∷ []) (omega arith)) in
      let (i, there) = line_end-concat (drop s.mid body) in absurd (cc)
]

pub search_step-Shrinks :
    (d : Decoder) (content body : Bytes) (target : Time) (s : Search)
    → content ≡ body ++ newline ∷ []
    → IsSearch s
    → s.left < s.right
    → Shrinks (length content) s (search_step d content target s)
unfolding search_step
search_step-Shrinks d content body target s ends v h =
    elim (Bool-cases (leb (length content) s.mid)) [
      | inl beyond ↦
          rw beyond (smaller-Shrinks (length content) s _ (omega arith) (omega arith) refl)
      | inr within ↦ rw within (
          on_chunk-Shrinks d (length content) s target _ _ v h (omega (tests, within)) refl
            (λ none_there. buf-lt content body s ends (omega (tests, within)) none_there))
    ]

-- With more fuel than the weight the loop ends.
pub search_loop-ends :
    (d : Decoder) (content body : Bytes) (target : Time) (accuracy fuel : ℕ) (s : Search)
    → content ≡ body ++ newline ∷ []
    → IsSearch s
    → weight (length content) s < fuel
    → (p : ℕ) × (search_loop d fuel content target accuracy s ≡ some p)
unfolding search_loop
search_loop-ends d content body target accuracy zero s ends v h = absurd (omega arith)
search_loop-ends d content body target accuracy (suc fuel) s ends v h =
    elim (Bool-cases (ltb (s.left + accuracy) s.right)) [
      | inl more ↦
          let turn = search_step-Shrinks d content body target s ends v (omega (tests, more)) in
          rw (more, search_loop)
            (search_loop-ends d content body target accuracy fuel _ ends turn.valid
              (omega (arith, turn.lighter)))
      | inr done ↦ (s.left, rw (done, search_loop) refl)
    ]
