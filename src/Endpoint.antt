-- ===== src/Endpoint.antt =====
-- internal/endpoint/log.go: the scanners that filter and page the log. A counter is a `uint64` that
-- counts records and does not wrap around.
pub mod Options
pub mod Paging
pub mod Collect
use ayd.Common.{
  ℕ, zero, suc, ◌+◌, ◌-◌, Bool, true, false, not, ◌&&◌, List, [], ◌∷◌, Option, none, some, leb,
  ◌==◌, if◌then◌else◌,
}

-- The interface `api.LogScanner` on a state: `Scan` with the record that `Record` gives after it, or
-- `none` for false.
pub record LogScanner (S X : Type 0) : Type 0 where
  pub scan : S → Option X × S

-- A log: the records that it still has.
unfoldable pub log_scan : {X : Type 0} → List X → Option X × List X
log_scan [] = (none, [])
log_scan (x ∷ xs) = (some x, xs)

-- `FilterScanner.Scan` over a log.
unfoldable pub filter_scan : {X : Type 0} → (X → Bool) → List X → Option X × List X
filter_scan matches [] = (none, [])
filter_scan matches (x ∷ xs) =
    let rest = filter_scan matches xs in if matches x then (some x, xs) else rest

-- The scanner of `newLogScannerByOpts`, with a query or without.
unfoldable pub raw_scanner : {X : Type 0} → Option (X → Bool) → LogScanner (List X) X
unfolding log_scan filter_scan
raw_scanner none = record { scan = log_scan }
raw_scanner (some matches) = record { scan = filter_scan matches }

-- The fields of `PagingScanner` that change.
pub record PagingScanner (S : Type 0) : Type 0 where
  pub scanner : S
  pub count : ℕ

module _ {S X : Type 0} (inner : LogScanner S X) where
  abbrev pub counted : Option X × S → ℕ → Option X × PagingScanner S
  counted (none, s) n = (none, record { scanner = s; count = n })
  counted (some x, s) n = (some x, record { scanner = s; count = n + 1 })

  -- `s.Scanner.Scan()` and, where it is true, `s.count++`.
  abbrev pub scan_counted : PagingScanner S → Option X × PagingScanner S
  scan_counted p = counted (inner.scan p.scanner) p.count

  abbrev pub skipped :
      Option X × PagingScanner S
      → (PagingScanner S → Option X × PagingScanner S)
      → Option X × PagingScanner S
  skipped (none, p) rest = (none, p)
  skipped (some x, p) rest = rest p

  -- What `Scan` does behind its loop.
  unfoldable pub scan_page : (offset limit : ℕ) → PagingScanner S → Option X × PagingScanner S
  scan_page offset limit p =
      if not (limit == 0) && leb limit (p.count - offset) then (none, p) else scan_counted p

  -- The loop, for the number of records that are still to be skipped.
  unfoldable pub skip : ℕ → (offset limit : ℕ) → PagingScanner S → Option X × PagingScanner S
  unfolding scan_page
  skip zero offset limit p = scan_page offset limit p
  skip (suc n) offset limit p = skipped (scan_counted p) (skip n offset limit)

  -- `PagingScanner.Scan`
  unfoldable pub paging_scan : (offset limit : ℕ) → PagingScanner S → Option X × PagingScanner S
  unfolding skip
  paging_scan offset limit p = skip (offset - p.count) offset limit p

  abbrev pub joined :
      Option X × PagingScanner S
      → (PagingScanner S → Option (List X × PagingScanner S))
      → Option (List X × PagingScanner S)
  joined (none, p) rest = some ([], p)
  joined (some x, p) rest = elim (rest p) [ none ↦ none | some (xs, p') ↦ some (x ∷ xs, p') ]

  -- The loop of a handler, `for scanner.Scan()`, with the records that it gets; `none` where the fuel
  -- runs out.
  unfoldable pub collect :
      ℕ → (offset limit : ℕ) → PagingScanner S → Option (List X × PagingScanner S)
  unfolding paging_scan
  collect zero offset limit p = none
  collect (suc f) offset limit p = joined (paging_scan offset limit p) (collect f offset limit)

  abbrev pub totalled : Option X × PagingScanner S → (PagingScanner S → Option ℕ) → Option ℕ
  totalled (none, p) rest = some p.count
  totalled (some x, p) rest = rest p

  -- `ScanTotal`
  unfoldable pub scan_total : ℕ → PagingScanner S → Option ℕ
  scan_total zero p = none
  scan_total (suc f) p = totalled (scan_counted p) (scan_total f)
