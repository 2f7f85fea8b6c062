-- ===== src/Endpoint/Collect.antt =====
-- internal/endpoint/log.go: reading a page to its end, and the total behind it.
use ayd.Common.{
  ℕ, zero, suc, ◌+◌, ◌-◌, ◌<◌, Bool, false, not, ◌&&◌, ◌≡◌, refl, sym, ap, ◌∙◌, List, [], ◌∷◌,
  Option, none, some, length, take, drop, leb, ◌==◌, if◌then◌else◌, Bool-cases, inl, inr, arith,
}
use ayd.Endpoint.{
  LogScanner, PagingScanner, raw_scanner, counted, skipped, scan_page, skip, paging_scan, joined,
  collect, totalled, scan_total,
}
use ayd.Endpoint.Paging.{
  matching, Shows, Follows, raw_scanner-Follows, page, page_nil, page_before, page_full,
  page_within,
}

module _ {S X : Type 0} (inner : LogScanner S X) (view : S → List X)
    (follows : Follows inner view) where
  abbrev total : PagingScanner S → ℕ
  total p = p.count + length (view p.scanner)

  -- One call: the page is at its end, or the record is its next one.
  abbrev Scanned : (offset limit : ℕ) → PagingScanner S → Option X × PagingScanner S → Type 0
  Scanned offset limit p (none, p') =
      (page offset limit p.count (view p.scanner) ≡ []) × (total p' ≡ total p)
  Scanned offset limit p (some x, p') =
      (page offset limit p.count (view p.scanner)
        ≡ x ∷ page offset limit p'.count (view p'.scanner))
      × (total p' ≡ total p)
      × (length (view p'.scanner) < length (view p.scanner))

  scan_page-Scanned :
      (o l : ℕ) (p : PagingScanner S) → 0 ≡ o - p.count → Scanned o l p (scan_page inner o l p)
  unfolding scan_page
  scan_page-Scanned o l p e = elim (Bool-cases (not (l == 0) && leb l (p.count - o))) [
    | inl full ↦ rw full (page_full o l p.count (view p.scanner) full, refl)
    | inr more ↦ rw more (next (inner.scan p.scanner) (follows p.scanner) more)
  ]
    where
      next :
          (r : Option X × S)
          → Shows view (view p.scanner) r
          → (not (l == 0) && leb l (p.count - o)) ≡ false
          → Scanned o l p (counted inner r p.count)
      next (none, s) h more = (
        ap (page o l p.count) h.0 ∙ page_nil o l p.count,
        omega (arith, ap length h.0, ap length h.1),
      )
      next (some x, s) h more = (
        ap (page o l p.count) h ∙ page_within o l p.count x (view s) e more,
        omega (arith, ap length h),
        omega (arith, ap length h),
      )

  skip-Scanned :
      (n o l : ℕ) (p : PagingScanner S) → n ≡ o - p.count → Scanned o l p (skip inner n o l p)
  unfolding skip
  skip-Scanned zero o l p e = scan_page-Scanned o l p e
  skip-Scanned (suc n) o l p e =
      next (inner.scan p.scanner) (follows p.scanner) (λ p' e'. skip-Scanned n o l p' e')
    where
      over :
          (x : X) (p' : PagingScanner S) (r : Option X × PagingScanner S)
          → view p.scanner ≡ x ∷ view p'.scanner
          → p'.count ≡ p.count + 1
          → Scanned o l p' r
          → Scanned o l p r
      over x p' (none, q) h c (a, b) = (
        ap (page o l p.count) h
            ∙ page_before n o l p.count x (view p'.scanner) e
            ∙ ap (λ c. page o l c (view p'.scanner)) (sym c)
            ∙ a,
        omega (arith, b, c, ap length h),
      )
      over x p' (some y, q) h c (a, b, less) = (
        ap (page o l p.count) h
            ∙ page_before n o l p.count x (view p'.scanner) e
            ∙ ap (λ c. page o l c (view p'.scanner)) (sym c)
            ∙ a,
        omega (arith, b, c, ap length h),
        omega (arith, less, ap length h),
      )

      next :
          (r : Option X × S)
          → Shows view (view p.scanner) r
          → ((p' : PagingScanner S) → n ≡ o - p'.count → Scanned o l p' (skip inner n o l p'))
          → Scanned o l p (skipped inner (counted inner r p.count) (skip inner n o l))
      next (none, s) h rec = (
        ap (page o l p.count) h.0 ∙ page_nil o l p.count,
        omega (arith, ap length h.0, ap length h.1),
      )
      next (some x, s) h rec =
          let p' : PagingScanner S = record { scanner = s; count = p.count + 1 } in
          over x p' (skip inner n o l p') h refl (rec p' (omega (arith, e)))

  -- The loop of a handler has got these records, and so many are there in all.
  abbrev Collects : List X → ℕ → Option (List X × PagingScanner S) → Type 0
  Collects ys n none = ⊥
  Collects ys n (some (xs, p)) = (xs ≡ ys) × (total p ≡ n)

  collect-Collects :
      (f o l : ℕ) (p : PagingScanner S)
      → length (view p.scanner) < f
      → Collects (page o l p.count (view p.scanner)) (total p) (collect inner f o l p)
  unfolding collect paging_scan
  collect-Collects zero o l p h = absurd (omega arith)
  collect-Collects (suc f) o l p h =
      next (skip inner (o - p.count) o l p) (skip-Scanned (o - p.count) o l p refl)
        (λ p' less. collect-Collects f o l p' (omega arith))
    where
      one :
          (x : X) (p' : PagingScanner S) (r : Option (List X × PagingScanner S))
          → Scanned o l p (some x, p')
          → Collects (page o l p'.count (view p'.scanner)) (total p') r
          → Collects
              (page o l p.count (view p.scanner))
              (total p)
              (joined inner (some x, p') (λ _. r))
      one x p' none h k = k
      one x p' (some (xs, q)) (a, b, less) k = (ap (λ ys. x ∷ ys) k.0 ∙ sym a, k.1 ∙ b)

      next :
          (r : Option X × PagingScanner S)
          → Scanned o l p r
          → ((p' : PagingScanner S)
              → length (view p'.scanner) < length (view p.scanner)
              → Collects (page o l p'.count (view p'.scanner)) (total p') (collect inner f o l p'))
          → Collects
              (page o l p.count (view p.scanner))
              (total p)
              (joined inner r (collect inner f o l))
      next (none, p') h rec = (sym h.0, h.1)
      next (some x, p') h rec = one x p' (collect inner f o l p') h (rec p' h.2)

  scan_total-total :
      (f : ℕ) (p : PagingScanner S)
      → length (view p.scanner) < f
      → scan_total inner f p ≡ some (total p)
  unfolding scan_total
  scan_total-total zero p h = absurd (omega arith)
  scan_total-total (suc f) p h =
      next (inner.scan p.scanner) (follows p.scanner)
        (λ p' less. scan_total-total f p' (omega arith))
    where
      next :
          (r : Option X × S)
          → Shows view (view p.scanner) r
          → ((p' : PagingScanner S)
              → length (view p'.scanner) < length (view p.scanner)
              → scan_total inner f p' ≡ some (total p'))
          → totalled inner (counted inner r p.count) (scan_total inner f) ≡ some (total p)
      next (none, s) h rec = ap some (omega (arith, ap length h.0))
      next (some x, s) h rec =
          rec (record { scanner = s; count = p.count + 1 }) (omega (arith, ap length h))
          ∙ ap some (omega (arith, ap length h))

module _ {X : Type 0} where
  -- The records of the page, and the number that `ScanTotal` gives after them.
  abbrev pub Reads :
      ℕ → LogScanner (List X) X → List X → ℕ → Option (List X × PagingScanner (List X)) → Type 0
  Reads f inner ys n none = ⊥
  Reads f inner ys n (some (xs, p)) = (xs ≡ ys) × (scan_total inner f p ≡ some n)

  page_from_start :
      (offset limit : ℕ) (xs : List X)
      → page offset limit 0 xs
        ≡ (if limit == 0 then drop offset xs else take limit (drop offset xs))
  page_from_start o l xs =
      let whole : o - 0 ≡ o = omega arith in
      let none_read : l - (0 - o) ≡ l = omega arith in
      ap (λ k. if l == 0 then drop k xs else take (l - (0 - o)) (drop k xs)) whole
      ∙ ap (λ k. if l == 0 then drop o xs else take k (drop o xs)) none_read

  -- A handler that reads a log through a query and a page, with more fuel than there are matching
  -- records, gets the matching records from the offset on, as many as the limit says or all where
  -- it is zero, and `ScanTotal` afterwards gives the number of all matching records.
  pub collect-page :
      (query : Option (X → Bool)) (offset limit : ℕ) (log : List X) (fuel : ℕ)
      → length (matching query log) < fuel
      → let all = matching query log in
        Reads fuel
          (raw_scanner query)
          (if limit == 0 then drop offset all else take limit (drop offset all))
          (length all)
          (collect (raw_scanner query) fuel offset limit (record { scanner = log; count = 0 }))
  collect-page query o l log f h =
      let inner = raw_scanner query in
      let start : PagingScanner (List X) = record { scanner = log; count = 0 } in
      read (collect inner f o l start)
        (collect-Collects inner (matching query) (raw_scanner-Follows query) f o l start h)
    where
      read :
          (r : Option (List X × PagingScanner (List X)))
          → Collects
              (raw_scanner query)
              (matching query)
              (raw_scanner-Follows query)
              (page o l 0 (matching query log))
              (0 + length (matching query log))
              r
          → Reads f
              (raw_scanner query)
              (if l == 0 then drop o (matching query log) else take l (drop o (matching query log)))
              (length (matching query log))
              r
      read none k = k
      read (some (xs, p)) (records, count) = (
        records ∙ page_from_start o l (matching query log),
        scan_total-total (raw_scanner query) (matching query) (raw_scanner-Follows query) f p
              (omega (arith, count))
            ∙ ap some (omega (arith, count)),
      )
