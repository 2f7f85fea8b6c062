-- ===== src/Store/Scanner/File.antt =====
-- internal/store/scanner.go: what the scanner of one file gives in all.
use ayd.Common.{
  ◌+◌, ◌≤◌, ◌<◌, true, false, not, ◌&&◌, List, [], ◌∷◌, Option, none, some, ltb, if◌then◌else◌, ◌≡◌,
  refl, sym, ap, arith, tests, All, Bool-cases, inl, inr, ◌∙◌,
}
use ayd.Api.Record.{Time, Record}
use ayd.Store.Scanner.{Line, FileScanner, buffer_size, clearance, on_record, scan_lines}

module _ {X : Type 0} where
  abbrev pub with_content : Option (Record X) → List (Record X) → List (Record X)
  with_content none rs = rs
  with_content (some r) rs = r ∷ rs

  -- The records of the lines that have one.
  abbrev pub contents : List (Line X) → List (Record X)
  contents [] = []
  contents (l ∷ ls) = with_content l.content (contents ls)

  -- Every later record is delayed by the clearance at most.
  abbrev pub Follow : Option (Record X) → List (Record X) → Type 0
  Follow none rs = Unit
  Follow (some r) rs = All (λ (x : Record X). r.time ≤ x.time + clearance) rs

  abbrev pub Delayed : List (Line X) → Type 0
  Delayed [] = Unit
  Delayed (l ∷ ls) = Follow l.content (contents ls) × Delayed ls

  abbrev pub Fits : Line X → Type 0
  Fits l = l.size ≤ buffer_size

module _ {X : Type 0} (since until : Time) where
  -- The records from `since` to `until`, without the latter.
  abbrev pub in_period : List (Record X) → List (Record X)
  in_period [] = []
  in_period (r ∷ rs) =
      let rest = in_period rs in
      if not (ltb r.time since) && ltb r.time until then r ∷ rest else rest

  abbrev keep : Option (Record X) → List (Record X) → List (Record X)
  keep none rest = rest
  keep (some r) rest =
      if not (ltb r.time since) && ltb r.time until
      then r ∷ rest
      else if ltb (until + clearance) r.time
      then []
      else rest

  -- What the calls of `Scan` give until it is false.
  unfoldable pub kept : List (Line X) → List (Record X)
  kept [] = []
  kept (l ∷ ls) = let rest = kept ls in if ltb buffer_size l.size then [] else keep l.content rest

  -- The record of a scanner, and then what its further calls give.
  abbrev pub stream : FileScanner X → List (Record X)
  stream s = s.rec ∷ kept s.lines

  abbrev pub stream_of : Option (FileScanner X) → List (Record X)
  stream_of none = []
  stream_of (some s) = stream s

  stream_of-on_record :
      (o : Option (Record X)) (ls : List (Line X)) (rest : Option (FileScanner X))
      → stream_of rest ≡ kept ls
      → stream_of (on_record since until o ls rest) ≡ keep o (kept ls)
  stream_of-on_record none ls rest e = e
  stream_of-on_record (some r) ls rest e =
      elim (Bool-cases (not (ltb r.time since) && ltb r.time until)) [
        | inl within ↦ rw within refl
        | inr out ↦ elim (Bool-cases (ltb (until + clearance) r.time)) [
          | inl beyond ↦ rw (out, beyond) refl
          | inr before ↦ rw (out, before) e
        ]
      ]

  pub stream_of-scan_lines :
      (lines : List (Line X)) → stream_of (scan_lines since until lines) ≡ kept lines
  unfolding scan_lines kept
  stream_of-scan_lines [] = refl
  stream_of-scan_lines (l ∷ ls) = elim (Bool-cases (ltb buffer_size l.size)) [
    | inl long ↦ rw long refl
    | inr fits ↦ rw fits (stream_of-on_record l.content ls _ (stream_of-scan_lines ls))
  ]

  in_period_nil :
      (rs : List (Record X)) → All (λ (x : Record X). until ≤ x.time) rs → in_period rs ≡ []
  in_period_nil [] h = refl
  in_period_nil (r ∷ rs) h =
      let out : (not (ltb r.time since) && ltb r.time until) ≡ false = ground arith in
      rw out (in_period_nil rs h.1)

  late_lem :
      (t : Time) (rs : List (Record X))
      → until + clearance < t
      → All (λ (x : Record X). t ≤ x.time + clearance) rs
      → All (λ (x : Record X). until ≤ x.time) rs
  late_lem t [] h all = tt
  late_lem t (r ∷ rs) h all = (omega arith, late_lem t rs h all.1)

  keep-in_period :
      (o : Option (Record X)) (rs : List (Record X))
      → Follow o rs
      → keep o (in_period rs) ≡ in_period (with_content o rs)
  keep-in_period none rs h = refl
  keep-in_period (some r) rs h = elim (Bool-cases (not (ltb r.time since) && ltb r.time until)) [
    | inl within ↦ rw within refl
    | inr out ↦ elim (Bool-cases (ltb (until + clearance) r.time)) [
      | inl beyond ↦
          rw (out, beyond) (sym (in_period_nil rs (late_lem r.time rs (omega (tests, beyond)) h)))
      | inr before ↦ rw (out, before) refl
    ]
  ]

  -- Where no line is longer than the buffer and no record is delayed by more than the clearance, a
  -- file gives exactly its records of the period.
  pub kept-in_period :
      (lines : List (Line X))
      → All Fits lines
      → Delayed lines
      → kept lines ≡ in_period (contents lines)
  unfolding kept
  kept-in_period [] fits delayed = refl
  kept-in_period (l ∷ ls) fits delayed =
      let short : ltb buffer_size l.size ≡ false = ground arith in
      rw short (
        ap (keep l.content) (kept-in_period ls fits.1 delayed.1)
        ∙ keep-in_period l.content (contents ls) delayed.0)

  -- A line longer than the buffer ends the reading of its file.
  pub kept_long : (l : Line X) (ls : List (Line X)) → buffer_size < l.size → kept (l ∷ ls) ≡ []
  unfolding kept
  kept_long l ls h = let long : ltb buffer_size l.size ≡ true = ground arith in rw long refl
