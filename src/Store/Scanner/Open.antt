-- ===== src/Store/Scanner/Open.antt =====
-- internal/store/scanner.go: opening the files of a period and reading them to the end.
use mathlib.Core.Path.{subst}
use ayd.Common.{
  ℕ, zero, suc, ◌≤◌, ◌<◌, true, false, List, [], ◌∷◌, ◌++◌, Option, none, some, append-nil,
  append_assoc, ltb, get_elem?, length, ◌≡◌, ◌⊎◌, refl, sym, ap, arith, tests, All, All-append,
  Bool-cases, inl, inr, ◌∙◌,
}
use ayd.Api.Record.{Time, Record}
use ayd.Store.History.Order.{Rises, NotBefore}
use ayd.Store.Scanner.{
  FileScanner, FileScannerSet, Opened, missing, failed, opened, Opening, add_scanner, open_all, far,
  scan_lines,
}
use ayd.Store.Scanner.File.{kept, stream, stream_of, stream_of-scan_lines}
use ayd.Store.Scanner.Merge.{Heads, IsEarliest, pool, Ordered}

module _ {X : Type 0} where
  get_elem?-front :
      (ss : List (FileScanner X)) (s t : FileScanner X) (k : ℕ)
      → get_elem? ss k ≡ some t
      → get_elem? (ss ++ s ∷ []) k ≡ some t
  get_elem?-front [] s t k e = absurd (cc)
  get_elem?-front (x ∷ ss) s t zero e = e
  get_elem?-front (x ∷ ss) s t (suc k) e = get_elem?-front ss s t k e

  get_elem?-back :
      (ss : List (FileScanner X)) (s : FileScanner X)
      → get_elem? (ss ++ s ∷ []) (length ss) ≡ some s
  get_elem?-back [] s = refl
  get_elem?-back (x ∷ ss) s = get_elem?-back ss s

  -- There is no scanner yet, or the earliest is known.
  abbrev pub IsOpening : Opening X → Type 0
  IsOpening o =
      ((o.scanners ≡ []) × (o.min ≡ far))
      ⊎ ((e : IsEarliest o.scanners o.earliest) × (o.min ≡ e.scanner.rec.time))

  Heads-append :
      (a : Record X) (ss : List (FileScanner X)) (s : FileScanner X)
      → All (Heads (NotBefore a)) ss
      → a.time ≤ s.rec.time
      → All (Heads (NotBefore a)) (ss ++ s ∷ [])
  Heads-append a ss s h le = All-append (Heads (NotBefore a)) ss (s ∷ []) h (le, tt)

  Heads-later :
      (a b : Record X) (ss : List (FileScanner X))
      → a.time ≤ b.time
      → All (Heads (NotBefore b)) ss
      → All (Heads (NotBefore a)) ss
  Heads-later a b [] le h = tt
  Heads-later a b (s ∷ ss) le h = (omega arith, Heads-later a b ss le h.1)

  add_scanner-IsOpening :
      (o : Opening X) (t : Option (FileScanner X))
      → IsOpening o
      → All (Heads (λ x. x.time < far)) (elim t [ none ↦ [] | some s ↦ s ∷ [] ])
      → IsOpening (add_scanner o t)
  add_scanner-IsOpening o none h near = h
  add_scanner-IsOpening o (some s) (inl (empty, min)) near =
      let first : ltb s.rec.time o.min ≡ true = ground arith in
      rw first (
        inr (
          record {
            scanner = s;
            here = get_elem?-back o.scanners s;
            first = Heads-append s.rec o.scanners s (rw empty tt) (omega arith);
          },
          refl,
        ))
  add_scanner-IsOpening o (some s) (inr (e, min)) near = elim (Bool-cases (ltb s.rec.time o.min)) [
    | inl first ↦ rw first (
        inr (
          record {
            scanner = s;
            here = get_elem?-back o.scanners s;
            first =
                Heads-append s.rec o.scanners s
                  (Heads-later s.rec e.scanner.rec o.scanners (omega (tests, first)) e.first)
                  (omega arith);
          },
          refl,
        ))
    | inr later ↦ rw later (
        inr (
          record {
            scanner = e.scanner;
            here = get_elem?-front o.scanners s e.scanner o.earliest e.here;
            first = Heads-append e.scanner.rec o.scanners s e.first (omega (tests, later));
          },
          min,
        ))
  ]

module _ {X : Type 0} (since until : Time) where
  -- The records that the files give by themselves, one file after the other.
  abbrev pub file_records : List (Opened X) → List (Record X)
  file_records [] = []
  file_records (missing ∷ files) = file_records files
  file_records (failed ∷ files) = file_records files
  file_records (opened lines ∷ files) = kept since until lines ++ file_records files

  pool-append :
      (ss : List (FileScanner X)) (s : FileScanner X)
      → pool since until (ss ++ s ∷ []) ≡ pool since until ss ++ stream since until s
  pool-append [] s = append-nil _
  pool-append (x ∷ ss) s =
      ap (◌++◌ (stream since until x)) (pool-append ss s)
      ∙ sym (append_assoc (stream since until x) (pool since until ss) (stream since until s))

  pool-add_scanner :
      (o : Opening X) (t : Option (FileScanner X))
      → pool since until (add_scanner o t).scanners
        ≡ pool since until o.scanners ++ stream_of since until t
  pool-add_scanner o none = sym (append-nil _)
  pool-add_scanner o (some s) = pool-append o.scanners s

  -- Each file is in the order of time.
  abbrev pub FilesOrdered : List (Opened X) → Type 0
  FilesOrdered [] = Unit
  FilesOrdered (missing ∷ files) = FilesOrdered files
  FilesOrdered (failed ∷ files) = FilesOrdered files
  FilesOrdered (opened lines ∷ files) = Rises (kept since until lines) × FilesOrdered files

  Ordered-add_scanner :
      (o : Opening X) (t : Option (FileScanner X))
      → Ordered since until o.scanners
      → Rises (stream_of since until t)
      → Ordered since until (add_scanner o t).scanners
  Ordered-add_scanner o none h rises = h
  Ordered-add_scanner o (some s) h rises =
      All-append (λ x. Rises (stream since until x)) o.scanners (s ∷ []) h (rises, tt)

  -- What is known of the set that `open_all` returns.
  pub record IsOpened (o : Opening X) (rs : List (Record X)) (F : Type 0) (r : FileScannerSet X)
      : Type 0 where
    pub fresh : r.scanned ≡ false
    pub records : pool since until r.scanners ≡ pool since until o.scanners ++ rs
    pub in_order : Ordered since until o.scanners → F → Ordered since until r.scanners
    pub earliest : (r.scanners ≡ []) ⊎ IsEarliest r.scanners r.earliest

  near_head :
      (t : Option (FileScanner X))
      → All (λ (x : Record X). x.time < far) (stream_of since until t)
      → All (Heads (λ x. x.time < far)) (elim t [ none ↦ [] | some s ↦ s ∷ [] ])
  near_head none h = tt
  near_head (some s) h = (h.0, tt)

  All-front :
      (P : Record X → Type 0) (xs ys : List (Record X)) → All P (xs ++ ys) → All P xs × All P ys
  All-front P [] ys h = (tt, h)
  All-front P (x ∷ xs) ys h = let (front, back) = All-front P xs ys h.1 in ((h.0, front), back)

  some_inj : {a b : FileScannerSet X} → Path (Option (FileScannerSet X)) (some a) (some b) → a ≡ b
  some_inj e = cc

  pub open_all-IsOpened :
      (o : Opening X) (files : List (Opened X)) (r : FileScannerSet X)
      → IsOpening o
      → All (λ (x : Record X). x.time < far) (file_records files)
      → open_all since until o files ≡ some r
      → IsOpened o (file_records files) (FilesOrdered files) r
  unfolding open_all
  open_all-IsOpened o [] r h near e = subst (IsOpened o [] Unit) (some_inj e) (record {
    fresh = refl;
    records = sym (append-nil _);
    in_order = λ ordered _. ordered;
    earliest = known h;
  })
    where
      known : IsOpening o → (o.scanners ≡ []) ⊎ IsEarliest o.scanners o.earliest
      known (inl (empty, min)) = inl empty
      known (inr (first, min)) = inr first
  open_all-IsOpened o (missing ∷ files) r h near e = open_all-IsOpened o files r h near e
  open_all-IsOpened o (failed ∷ files) r h near e = absurd (cc)
  open_all-IsOpened o (opened lines ∷ files) r h near e =
      let t = scan_lines since until lines in
      let given = stream_of-scan_lines since until lines in
      let (front, back) = All-front _ (kept since until lines) (file_records files) near in
      let near' = near_head t (subst (All (λ (x : Record X). x.time < far)) (sym given) front) in
      let rest =
        open_all-IsOpened (add_scanner o t) files r (add_scanner-IsOpening o t h near') back e in
      record {
        fresh = rest.fresh;
        records =
            rest.records
            ∙ ap (λ rs. rs ++ file_records files)
                (pool-add_scanner o t ∙ ap (◌++◌ (pool since until o.scanners)) given)
            ∙ append_assoc (pool since until o.scanners) (kept since until lines)
                (file_records files);
        in_order = λ ordered each.
            rest.in_order (Ordered-add_scanner o t ordered (subst Rises (sym given) each.0)) each.1;
        earliest = rest.earliest;
      }
