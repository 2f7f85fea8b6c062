-- ===== src/Store/Scanner/Drain.antt =====
-- internal/store/scanner.go: reading a set of scanners to its end.
use mathlib.Core.Path.{subst}
use mathlib.Core.List.{Permᴰ}
use mathlib.Core.List.Permᴰ
use ayd.Common.{
  ℕ, zero, suc, ◌≤◌, ◌<◌, true, false, List, [], ◌∷◌, ◌++◌, Option, none, some, get_elem?, length,
  ◌≡◌, ◌≢◌, refl, ap, arith, All, All-append, Bool-cases, inl, inr, ◌∙◌,
}
use ayd.Api.Record.{Time, Record}
use ayd.Store.History.Order.{Rises, NotBefore}
use ayd.Store.Scanner.{
  FileScanner, FileScannerSet, far, update_earliest, set_at, is_nonempty, scan_lines, on_scanned,
  scan_set, read_on, record_then, read_all,
}
use ayd.Store.Scanner.File.{kept, stream, stream_of-scan_lines}
use ayd.Store.Scanner.Merge.{
  All-perm, length-perm, Heads, IsEarliest, update_earliest-IsEarliest, pool, advance, pool-advance,
  Ordered, advance-Ordered,
}

module _ {X : Type 0} (since until : Time) where
  All-head :
      (P : Record X → Type 0) (ss : List (FileScanner X))
      → All P (pool since until ss)
      → All (Heads P) ss
  All-head P [] h = tt
  All-head P (s ∷ ss) h = (h.0, All-head P ss (All-behind (kept since until s.lines) h.1))
    where
      All-behind :
          (xs : List (Record X)) → All P (xs ++ pool since until ss) → All P (pool since until ss)
      All-behind [] k = k
      All-behind (x ∷ xs) k = All-behind xs k.1

  All-later :
      (a b : Record X) (rs : List (Record X))
      → a.time ≤ b.time
      → All (NotBefore b) rs
      → All (NotBefore a) rs
  All-later a b [] le h = tt
  All-later a b (r ∷ rs) le h = (omega arith, All-later a b rs le h.1)

  -- The earliest of the heads is the earliest of all.
  All-pool :
      (a : Record X) (ss : List (FileScanner X))
      → All (Heads (NotBefore a)) ss
      → Ordered since until ss
      → All (NotBefore a) (pool since until ss)
  All-pool a [] h o = tt
  All-pool a (s ∷ ss) h o =
      All-append (NotBefore a) (stream since until s) (pool since until ss)
        (h.0, All-later a s.rec (kept since until s.lines) h.0 o.0.0) (All-pool a ss h.1 o.1)

  is_nonempty-set_at :
      (k : ℕ) (s t : FileScanner X) (ss : List (FileScanner X))
      → get_elem? ss k ≡ some s
      → is_nonempty (set_at k t ss) ≡ true
  unfolding is_nonempty set_at
  is_nonempty-set_at k s t [] e = absurd (cc)
  is_nonempty-set_at zero s t (x ∷ ss) e = refl
  is_nonempty-set_at (suc k) s t (x ∷ ss) e = refl

  pub is_nonempty_at :
      (k : ℕ) (s : FileScanner X) (ss : List (FileScanner X))
      → get_elem? ss k ≡ some s
      → is_nonempty ss ≡ true
  unfolding is_nonempty
  is_nonempty_at k s [] e = absurd (cc)
  is_nonempty_at k s (x ∷ ss) e = refl

  -- The set after a record was read, where `o` is what its scanner goes on with.
  abbrev next : FileScannerSet X → Option (FileScanner X) → FileScannerSet X
  next r o = update_earliest (record r { scanners = advance since until r.earliest o r.scanners })

  on_scanned-next :
      (r : FileScannerSet X) (s : FileScanner X) (o : Option (FileScanner X))
      → get_elem? r.scanners r.earliest ≡ some s
      → on_scanned r o ≡ (is_nonempty (advance since until r.earliest o r.scanners), next r o)
  on_scanned-next r s none e = refl
  on_scanned-next r s (some t) e = rw (is_nonempty-set_at r.earliest s t r.scanners e) refl

  scan_set-scanned :
      (r : FileScannerSet X) (s : FileScanner X)
      → r.scanned ≡ true
      → get_elem? r.scanners r.earliest ≡ some s
      → scan_set since until r ≡ some (on_scanned r (scan_lines since until s.lines))
  unfolding scan_set
  scan_set-scanned r s scanned e = simp (scanned, is_nonempty_at r.earliest s r.scanners e, e) refl

  read_all-next :
      (fuel : ℕ) (r : FileScannerSet X) (s : FileScanner X)
      → r.scanned ≡ true
      → get_elem? r.scanners r.earliest ≡ some s
      → read_all since until (suc fuel) r
        ≡ read_on
            (some (
              is_nonempty
                  (advance since until r.earliest (scan_lines since until s.lines) r.scanners),
              next r (scan_lines since until s.lines),
            ))
            (λ n. read_all since until fuel n)
  unfolding read_all
  read_all-next fuel r s scanned e =
      ap (λ u. read_on u (λ n. read_all since until fuel n))
        (scan_set-scanned r s scanned e ∙ ap some (on_scanned-next r s _ e))

  -- What is to be shown of a set whose current record is that of `e`.
  pub record Drains (fuel : ℕ) (r : FileScannerSet X) (e : IsEarliest r.scanners r.earliest)
      : Type 0 where
    pub rest : List (Record X)
    pub returns : read_all since until fuel r ≡ some rest
    pub same : Permᴰ (e.scanner.rec ∷ rest) (pool since until r.scanners)
    pub in_order : Ordered since until r.scanners → Rises (e.scanner.rec ∷ rest)

  module _ (r : FileScannerSet X) (e : IsEarliest r.scanners r.earliest) where
    -- The scanners after the earliest was read, and the set with them.
    abbrev left : List (FileScanner X)
    left = advance since until r.earliest (scan_lines since until e.scanner.lines) r.scanners

    abbrev after : FileScannerSet X
    after = next r (scan_lines since until e.scanner.lines)

    taken : Permᴰ (pool since until r.scanners) (e.scanner.rec ∷ pool since until left)
    taken =
        pool-advance since until r.earliest (scan_lines since until e.scanner.lines) e.scanner
          r.scanners e.here (stream_of-scan_lines since until e.scanner.lines)

  pub nonempty : (ss : List (FileScanner X)) → is_nonempty ss ≡ true → ss ≢ []
  unfolding is_nonempty
  nonempty [] h e = absurd (cc)
  nonempty (s ∷ ss) h e = cc

  more-Drains :
      (fuel : ℕ) (r : FileScannerSet X) (e : IsEarliest r.scanners r.earliest)
      (e' : IsEarliest (after r e).scanners (after r e).earliest)
      → r.scanned ≡ true
      → is_nonempty (left r e) ≡ true
      → Drains fuel (after r e) e'
      → Drains (suc fuel) r e
  more-Drains fuel r e e' scanned more d = record {
    rest = e'.scanner.rec ∷ d.rest;
    returns =
        read_all-next fuel r e.scanner scanned e.here
        ∙ ap (λ b. read_on (some (b, after r e)) (λ n. read_all since until fuel n)) more
        ∙ ap (λ g. record_then g (read_all since until fuel (after r e))) e'.here
        ∙ ap (record_then (some e'.scanner)) d.returns;
    same = Permᴰ.trans (Permᴰ.cons refl d.same) (Permᴰ.symm (taken r e));
    in_order = λ o.
        let first = (All-perm _ (taken r e) (All-pool e.scanner.rec r.scanners e.first o)).1 in
        (
          All-perm (NotBefore e.scanner.rec) (Permᴰ.symm d.same) first,
          d.in_order (
              advance-Ordered since until r.earliest _ e.scanner r.scanners e.here
                (stream_of-scan_lines since until e.scanner.lines) o),
        );
  }

  pool_nil : (ss : List (FileScanner X)) → is_nonempty ss ≡ false → pool since until ss ≡ []
  unfolding is_nonempty
  pool_nil [] h = refl
  pool_nil (s ∷ ss) h = absurd (cc)

  done-Drains :
      (fuel : ℕ) (r : FileScannerSet X) (e : IsEarliest r.scanners r.earliest)
      → r.scanned ≡ true
      → is_nonempty (left r e) ≡ false
      → Drains (suc fuel) r e
  done-Drains fuel r e scanned done = record {
    rest = [];
    returns =
        read_all-next fuel r e.scanner scanned e.here
        ∙ ap (λ b. read_on (some (b, after r e)) (λ n. read_all since until fuel n)) done;
    same = Permᴰ.symm (
        subst (λ rs. Permᴰ (pool since until r.scanners) (e.scanner.rec ∷ rs))
          (pool_nil (left r e) done) (taken r e));
    in_order = λ o. (tt, tt);
  }

  -- With fuel for each record, a set whose earliest record is known gives all of its records.
  pub drain :
      (fuel : ℕ) (r : FileScannerSet X) (e : IsEarliest r.scanners r.earliest)
      → r.scanned ≡ true
      → All (λ (x : Record X). x.time < far) (pool since until r.scanners)
      → length (pool since until r.scanners) ≤ fuel
      → Drains fuel r e
  drain zero r e scanned near short = absurd (omega (arith, length-perm (taken r e)))
  drain (suc fuel) r e scanned near short = elim (Bool-cases (is_nonempty (left r e))) [
    | inl more ↦
        let near' = All-perm _ (taken r e) near in
        let e' =
          update_earliest-IsEarliest (record r { scanners = left r e }) (nonempty (left r e) more)
            (All-head _ (left r e) near'.1) in
        more-Drains fuel r e e' scanned more
          (drain fuel (after r e) e' scanned near'.1 (omega (arith, length-perm (taken r e))))
    | inr done ↦ done-Drains fuel r e scanned done
  ]
