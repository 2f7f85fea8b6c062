-- ===== src/Store/Scanner/Log.antt =====
-- internal/store/scanner.go: what reading the log of a period gives.
use mathlib.Core.Path.{subst}
use mathlib.Core.List.{Permᴰ}
use ayd.Common.{
  ℕ, zero, suc, ◌≤◌, ◌<◌, true, false, not, ◌&&◌, List, [], ◌∷◌, ◌++◌, some, ltb, length, ◌≡◌, refl,
  sym, ap, arith, All, Bool-cases, inl, inr, ◌∙◌,
}
use ayd.Api.Record.{Time, Record}
use ayd.Store.History.Order.{Rises}
use ayd.Store.Scanner.{
  FileScannerSet, Opened, missing, failed, opened, new_file_scanner_set, far, is_nonempty, scan_set,
  read_all, read_on, record_then,
}
use ayd.Store.Scanner.File.{Fits, Delayed, contents, in_period, kept-in_period}
use ayd.Store.Scanner.Merge.{pool}
use ayd.Store.Scanner.Drain.{drain, is_nonempty_at}
use ayd.Store.Scanner.Open.{file_records, FilesOrdered, open_all-IsOpened}

module _ {X : Type 0} where
  -- The records in the lines of all files.
  abbrev pub all_contents : List (Opened X) → List (Record X)
  all_contents [] = []
  all_contents (missing ∷ files) = all_contents files
  all_contents (failed ∷ files) = all_contents files
  all_contents (opened lines ∷ files) = contents lines ++ all_contents files

  -- No line is longer than the buffer, and no record is delayed by more than the clearance.
  abbrev pub Readable : List (Opened X) → Type 0
  Readable [] = Unit
  Readable (missing ∷ files) = Readable files
  Readable (failed ∷ files) = Readable files
  Readable (opened lines ∷ files) = All Fits lines × Delayed lines × Readable files

module _ {X : Type 0} (since until : Time) where
  in_period-append :
      (xs ys : List (Record X))
      → in_period since until (xs ++ ys) ≡ in_period since until xs ++ in_period since until ys
  in_period-append [] ys = refl
  in_period-append (x ∷ xs) ys = elim (Bool-cases (not (ltb x.time since) && ltb x.time until)) [
    | inl within ↦ rw within (ap (◌∷◌ x) (in_period-append xs ys))
    | inr out ↦ rw out (in_period-append xs ys)
  ]

  file_records-in_period :
      (files : List (Opened X))
      → Readable files
      → file_records since until files ≡ in_period since until (all_contents files)
  file_records-in_period [] h = refl
  file_records-in_period (missing ∷ files) h = file_records-in_period files h
  file_records-in_period (failed ∷ files) h = file_records-in_period files h
  file_records-in_period (opened lines ∷ files) h =
      ap (λ rs. rs ++ file_records since until files) (kept-in_period since until lines h.0 h.1)
      ∙ ap (◌++◌ (in_period since until (contents lines))) (file_records-in_period files h.2)
      ∙ sym (in_period-append (contents lines) (all_contents files))

  -- What reading a set gives: `given`, in some order, and in the order of time where the files are.
  record Reading (fuel : ℕ) (r : FileScannerSet X) (given : List (Record X)) (F : Type 0)
      : Type 0 where
    rest : List (Record X)
    returns : read_all since until fuel r ≡ some rest
    same : Permᴰ rest given
    in_order : F → Rises rest

  started : FileScannerSet X → FileScannerSet X
  started r = record r { scanned = true }

  read_all-first :
      (fuel : ℕ) (r : FileScannerSet X)
      → r.scanned ≡ false
      → read_all since until (suc fuel) r
        ≡ read_on (some (is_nonempty r.scanners, started r)) (λ n. read_all since until fuel n)
  unfolding read_all scan_set started
  read_all-first fuel r fresh = simp fresh refl

  read_all-Reading :
      (fuel : ℕ) (files : List (Opened X)) (r : FileScannerSet X)
      → new_file_scanner_set since until files ≡ some r
      → All (λ (x : Record X). x.time < far) (file_records since until files)
      → length (file_records since until files) < fuel
      → Reading fuel r (file_records since until files) (FilesOrdered since until files)
  unfolding new_file_scanner_set started is_nonempty
  read_all-Reading zero files r e near h = absurd (omega arith)
  read_all-Reading (suc fuel) files r e near h =
      let o = open_all-IsOpened since until _ files r (inl (refl, refl)) near e in
      elim o.earliest [
        | inl empty ↦ record {
          rest = [];
          returns =
              read_all-first fuel r o.fresh
              ∙ ap (λ b. read_on (some (b, started r)) (λ n. read_all since until fuel n))
                  (ap is_nonempty empty);
          same = subst (Permᴰ []) (sym (ap (pool since until) empty) ∙ o.records) Permᴰ.nil;
          in_order = λ f. tt;
        }
        | inr first ↦
            let d =
              drain since until fuel (started r) first refl (subst (All _) (sym o.records) near)
                (subst (λ rs. length rs ≤ fuel) (sym o.records) (omega arith)) in
            record {
              rest = first.scanner.rec ∷ d.rest;
              returns =
                  read_all-first fuel r o.fresh
                  ∙ ap (λ b. read_on (some (b, started r)) (λ n. read_all since until fuel n))
                      (is_nonempty_at since until r.earliest first.scanner r.scanners first.here)
                  ∙ ap (λ g. record_then g (read_all since until fuel (started r))) first.here
                  ∙ ap (record_then (some first.scanner)) d.returns;
              same = subst (Permᴰ _) o.records d.same;
              in_order = λ f. d.in_order (o.in_order tt f);
            }
      ]

  -- Reading the files of a period to the end gives each record of the period once, and no other: none
  -- is lost, repeated or taken from outside. It does so where no line is longer than the buffer, no
  -- record stands behind one that is later by more than the clearance, no file but a missing one fails
  -- to open, and the fuel is above the number of the records.
  pub read_all-in_period :
      (fuel : ℕ) (files : List (Opened X)) (r : FileScannerSet X)
      → new_file_scanner_set since until files ≡ some r
      → Readable files
      → All (λ (x : Record X). x.time < far) (in_period since until (all_contents files))
      → length (in_period since until (all_contents files)) < fuel
      → (rs : List (Record X)) × (read_all since until fuel r ≡ some rs)
        × Permᴰ rs (in_period since until (all_contents files))
  read_all-in_period fuel files r e readable near h =
      let same = file_records-in_period files readable in
      let all =
        read_all-Reading fuel files r e (subst (All _) (sym same) near)
          (subst (λ rs. length rs < fuel) (sym same) h) in
      (all.rest, all.returns, subst (Permᴰ all.rest) same all.same)

  -- Where the records that each file gives are in the order of time, those of all files are read in
  -- the order of time.
  pub read_all-Rises :
      (fuel : ℕ) (files : List (Opened X)) (r : FileScannerSet X)
      → new_file_scanner_set since until files ≡ some r
      → All (λ (x : Record X). x.time < far) (file_records since until files)
      → length (file_records since until files) < fuel
      → FilesOrdered since until files
      → (rs : List (Record X)) × (read_all since until fuel r ≡ some rs) × Rises rs
  read_all-Rises fuel files r e near h ordered =
      let all = read_all-Reading fuel files r e near h in
      (all.rest, all.returns, all.in_order ordered)
