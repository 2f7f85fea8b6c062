-- ===== src/Store/Search/Behind.antt =====
-- internal/store/search.go: where `searchLog` ends.
use ayd.Common.{
  ℕ, zero, suc, ◌+◌, ◌≤◌, ◌<◌, true, [], ◌∷◌, Option, none, some, Bytes, ltb, leb, ◌==◌, length,
  take, drop, ◌≡◌, refl, ap, ==_iff, arith, tests, inl, inr, ◌⊎◌, Bool-cases, get_elem?, ◌∙◌, sym,
}
use ayd.Api.Record.{Time}
use ayd.Store.Search.{
  Decoder, Search, newline, moved, line_end, narrow, pass_line, on_time, on_object, on_line,
  on_chunk, search_step, search_loop,
}

-- The text is read as an object with a time of its own, which is before `target`.
pub record Older (d : Decoder) (target : Time) (line : Bytes) : Type 0 where
  pub time : Time
  pub accepted : (d.unmarshal line []).1 ≡ true
  pub time_is : d.parse_time (d.unmarshal line []).0 ≡ some time
  pub before : time < target

-- Each part of the file that is read as an object, whatever was read before, has a time of its own.
abbrev pub HasTimes : Decoder → Bytes → Type 0
HasTimes d content =
    (start size : ℕ) (old : Bytes)
    → (d.unmarshal (take size (drop start content)) old).1 ≡ true
    → d.unmarshal (take size (drop start content)) old
      ≡ d.unmarshal (take size (drop start content)) []

-- The position is right behind a newline, and the text from `start` to it is older than `target`.
pub record BehindOlder (d : Decoder) (content : Bytes) (target : Time) (p : ℕ) : Type 0 where
  pub start : ℕ
  pub size : ℕ
  pub position : p ≡ start + size + 1
  pub ends : get_elem? content (start + size) ≡ some newline
  pub older : Older d target (take size (drop start content))

-- The start of the file, or a position behind an older line.
abbrev pub Behind : Decoder → Bytes → Time → ℕ → Type 0
Behind d content target p = (p ≡ 0) ⊎ BehindOlder d content target p

line_end-newline : (s : Bytes) (i : ℕ) → line_end s ≡ some i → get_elem? s i ≡ some newline
unfolding line_end
line_end-newline [] i e = absurd (cc)
line_end-newline (c ∷ s) zero e = elim (Bool-cases (c == newline)) [
  | inl here ↦ ap some ((==_iff c newline).0 here)
  | inr there ↦ absurd (go (line_end s) (rw there at e))
]
  where
    go : (o : Option ℕ) → moved o ≡ some 0 → ⊥
    go none h = cc
    go (some j) h = ground arith
line_end-newline (c ∷ s) (suc i) e = elim (Bool-cases (c == newline)) [
  | inl here ↦ absurd (ground arith)
  | inr there ↦ line_end-newline s i (go (line_end s) (rw there at e))
]
  where
    go : (o : Option ℕ) → moved o ≡ some (suc i) → o ≡ some i
    go none h = absurd (cc)
    go (some j) h = ap some (ground arith)

get_elem?-take :
    (n i c : ℕ) (s : Bytes) → get_elem? (take n s) i ≡ some c → (get_elem? s i ≡ some c) × (i < n)
get_elem?-take zero i c s e = absurd (cc)
get_elem?-take (suc n) i c [] e = absurd (cc)
get_elem?-take (suc n) zero c (x ∷ s) e = (e, omega arith)
get_elem?-take (suc n) (suc i) c (x ∷ s) e =
    let (there, lt) = get_elem?-take n i c s e in (there, omega arith)

get_elem?-drop : (m i j : ℕ) (s : Bytes) → j ≡ m + i → get_elem? (drop m s) i ≡ get_elem? s j
get_elem?-drop zero i j s e = ap (get_elem? s) (omega arith)
get_elem?-drop (suc m) i zero s e = absurd (omega arith)
get_elem?-drop (suc m) i (suc j) [] e = refl
get_elem?-drop (suc m) i (suc j) (x ∷ s) e = get_elem?-drop m i j s (omega arith)

take-take : (n i : ℕ) (s : Bytes) → i ≤ n → take i (take n s) ≡ take i s
take-take n zero s h = refl
take-take zero (suc i) s h = absurd (omega arith)
take-take (suc n) (suc i) [] h = refl
take-take (suc n) (suc i) (x ∷ s) h = ap (◌∷◌ x) (take-take n i s (omega arith))

length-take_at : (i : ℕ) (s : Bytes) → get_elem? s i ≡ some newline → length (take i s) ≡ i
length-take_at i [] e = absurd (cc)
length-take_at zero (c ∷ s) e = refl
length-take_at (suc i) (c ∷ s) e = ap suc (length-take_at i s e)

-- A line of the buffer is one of the file.
line_of_file :
    (content : Bytes) (buf mid i : ℕ)
    → line_end (take buf (drop mid content)) ≡ some i
    → (get_elem? content (mid + i) ≡ some newline)
      × (take i (take buf (drop mid content)) ≡ take i (drop mid content))
line_of_file content buf mid i e =
    let (there, lt) = get_elem?-take buf i newline (drop mid content) (line_end-newline _ i e) in
    (
      sym (get_elem?-drop mid i (mid + i) content refl) ∙ there,
      take-take buf i (drop mid content) (omega arith),
    )

module _ (d : Decoder) (content : Bytes) (target : Time) where
  narrow-Behind :
      (s : Search) (size : ℕ) (t : Time)
      → Behind d content target s.left
      → (t < target → BehindOlder d content target (s.mid + size + 1))
      → Behind d content target (narrow d s target size t).left
  unfolding narrow
  narrow-Behind s size t h older = elim (Bool-cases (ltb t target)) [
    | inl old ↦ rw old (inr (older (omega (tests, old))))
    | inr new ↦ rw new h
  ]

  pass_line-Behind :
      (s : Search) (size : ℕ)
      → Behind d content target s.left
      → Behind d content target (pass_line d s size).left
  unfolding pass_line
  pass_line-Behind s size h = elim (Bool-cases (leb s.right (s.mid + size + 1))) [
    | inl beyond ↦ rw beyond h
    | inr before ↦ rw before h
  ]

  on_time-Behind :
      (s : Search) (size : ℕ) (o : Option Time)
      → Behind d content target s.left
      → ((t : Time) → o ≡ some t → t < target → BehindOlder d content target (s.mid + size + 1))
      → Behind d content target (on_time d s target size o).left
  on_time-Behind s size none h older = pass_line-Behind s size h
  on_time-Behind s size (some t) h older = narrow-Behind s size t h (older t refl)

  abbrev OwnTime : Bytes → Type 0
  OwnTime line =
      (old : Bytes) → (d.unmarshal line old).1 ≡ true → d.unmarshal line old ≡ d.unmarshal line []

  on_object-Behind :
      (s : Search) (size : ℕ) (line : Bytes)
      → OwnTime line
      → Behind d content target s.left
      → (Older d target line → BehindOlder d content target (s.mid + size + 1))
      → Behind d content target (on_object d s target size (d.unmarshal line s.rec)).left
  on_object-Behind s size line own h older = elim (Bool-cases (d.unmarshal line s.rec).1) [
    | inl accepted ↦ rw accepted (
        on_time-Behind (record s { rec = (d.unmarshal line s.rec).0 }) size _ h
          (λ t e lt.
            let same = own s.rec accepted in
            older (record {
              time = t;
              accepted = sym (ap (λ x. x.1) same) ∙ accepted;
              time_is = sym (ap (λ x. d.parse_time x.0) same) ∙ e;
              before = lt;
            })))
    | inr refused ↦
        rw refused (pass_line-Behind (record s { rec = (d.unmarshal line s.rec).0 }) size h)
  ]

  on_line-Behind :
      (s : Search) (line : Bytes)
      → OwnTime line
      → Behind d content target s.left
      → (Older d target line → BehindOlder d content target (s.mid + length line + 1))
      → Behind d content target (on_line d s target line).left
  unfolding on_line
  on_line-Behind s [] own h older = h
  on_line-Behind s (c ∷ line) own h older = elim (Bool-cases (c == b'{')) [
    | inl object ↦ rw object (on_object-Behind s (suc (length line)) (c ∷ line) own h older)
    | inr other ↦ rw other (pass_line-Behind s (suc (length line)) h)
  ]

  on_chunk-Behind :
      (s : Search) (o : Option ℕ)
      → HasTimes d content
      → Behind d content target s.left
      → line_end (take s.buf (drop s.mid content)) ≡ o
      → Behind d content target (on_chunk d s target (take s.buf (drop s.mid content)) o).left
  on_chunk-Behind s none times h e = h
  on_chunk-Behind s (some zero) times h e = h
  on_chunk-Behind s (some (suc i)) times h e =
      let (ends, same) = line_of_file content s.buf s.mid (suc i) e in
      let size : length (take (suc i) (take s.buf (drop s.mid content))) ≡ suc i =
        length-take_at (suc i) _ (line_end-newline _ (suc i) e) in
      on_line-Behind s _ (rw (← same) at (times s.mid (suc i))) h (λ older. record {
        start = s.mid;
        size = suc i;
        position = omega (arith, size);
        ends = ends;
        older = rw same at older;
      })

  search_step-Behind :
      (s : Search)
      → HasTimes d content
      → Behind d content target s.left
      → Behind d content target (search_step d content target s).left
  unfolding search_step
  search_step-Behind s times h = elim (Bool-cases (leb (length content) s.mid)) [
    | inl beyond ↦ rw beyond h
    | inr within ↦ rw within (on_chunk-Behind s _ times h refl)
  ]

  pub search_loop-Behind :
      (fuel accuracy p : ℕ) (s : Search)
      → HasTimes d content
      → Behind d content target s.left
      → search_loop d fuel content target accuracy s ≡ some p
      → Behind d content target p
  unfolding search_loop
  search_loop-Behind zero accuracy p s times h e = absurd (cc)
  search_loop-Behind (suc fuel) accuracy p s times h e =
      elim (Bool-cases (ltb (s.left + accuracy) s.right)) [
        | inl more ↦
            search_loop-Behind fuel accuracy p _ times (search_step-Behind s times h)
              (rw (more, search_loop) at e)
        | inr done ↦ let same : s.left ≡ p = ground arith in rw (← same) h
      ]
