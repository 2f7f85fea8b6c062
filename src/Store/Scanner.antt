-- ===== src/Store/Scanner.antt =====
-- internal/store/scanner.go: the scanners of the log files. A file is given by the lines from the
-- position that the search has found, and what `UnmarshalJSON` makes of each; closing is left out.
pub mod File
pub mod Merge
pub mod Drain
pub mod Open
pub mod Log
use ayd.Common.{
  ℕ, zero, suc, ◌+◌, ◌-◌, ◌*◌, Bool, true, false, not, ◌&&◌, List, [], ◌∷◌, ◌++◌, Option, none,
  some, ltb, ◌==◌, if◌then◌else◌, get_elem?, length,
}
use ayd.Api.Record.{Time, Record}

-- A line that ends with a newline, its length with it, and the record in it if there is one.
pub record Line (X : Type 0) : Type 0 where
  pub size : ℕ
  pub content : Option (Record X)

-- The buffer of `bufio.NewReader`.
abbrev pub buffer_size : ℕ
buffer_size = 4096

-- `70 * time.Minute`
abbrev pub clearance : ℕ
clearance = 4_200_000_000_000

-- What changes in a `fileScanner`: the lines that its reader has not read, and the record.
pub record FileScanner (X : Type 0) : Type 0 where
  pub lines : List (Line X)
  pub rec : Record X

abbrev pub scanned_at : {X : Type 0} → List (Line X) → Record X → Option (FileScanner X)
scanned_at lines r = some (record { lines = lines; rec = r })

module _ {X : Type 0} (since until : Time) where
  -- The tests on a record that was read; `rest` is what the next turn of the loop gives.
  abbrev pub on_record :
      Option (Record X) → List (Line X) → Option (FileScanner X) → Option (FileScanner X)
  on_record none lines rest = rest
  on_record (some r) lines rest =
      if not (ltb r.time since) && ltb r.time until
      then scanned_at lines r
      else if ltb (until + clearance) r.time
      then none
      else rest

  -- The loop of `fileScanner.Scan`, with `none` for false. Where the line does not fit the buffer, the
  -- error of `ReadSlice` still stands in `err` after the rest has been read.
  unfoldable pub scan_lines : List (Line X) → Option (FileScanner X)
  scan_lines [] = none
  scan_lines (l ∷ ls) =
      let rest = scan_lines ls in
      if ltb buffer_size l.size then none else on_record l.content ls rest

-- The fields of `fileScannerSet`.
pub record FileScannerSet (X : Type 0) : Type 0 where
  pub scanners : List (FileScanner X)
  pub scanned : Bool
  pub earliest : ℕ

-- `time.Unix(1<<60-1, 0)`
abbrev pub far : Time
far = (1_152_921_504_606_846_975 + 62_135_596_800) * 1_000_000_000

module _ {X : Type 0} where
  -- The loop of `updateEarliest`, from scanner `i` on.
  unfoldable pub earliest_from : (i : ℕ) → (min : Time) → ℕ → List (FileScanner X) → ℕ
  earliest_from i min e [] = e
  earliest_from i min e (s ∷ ss) =
      let first = ltb s.rec.time min in
      earliest_from (suc i) (if first then s.rec.time else min) (if first then i else e) ss

  abbrev pub update_earliest : FileScannerSet X → FileScannerSet X
  update_earliest r = record r { earliest = earliest_from 0 far r.earliest r.scanners }

  -- `r.scanners[i] = s`, which the pointer to the scanner does.
  unfoldable pub set_at : ℕ → FileScanner X → List (FileScanner X) → List (FileScanner X)
  set_at i s [] = []
  set_at zero s (x ∷ xs) = s ∷ xs
  set_at (suc i) s (x ∷ xs) = x ∷ set_at i s xs

  -- `append(r.scanners[:i], r.scanners[i+1:]...)`
  unfoldable pub remove_at : ℕ → List (FileScanner X) → List (FileScanner X)
  remove_at i [] = []
  remove_at zero (x ∷ xs) = xs
  remove_at (suc i) (x ∷ xs) = x ∷ remove_at i xs

  unfoldable pub is_nonempty : List (FileScanner X) → Bool
  is_nonempty [] = false
  is_nonempty (s ∷ ss) = true

  abbrev pub on_scanned : FileScannerSet X → Option (FileScanner X) → Bool × FileScannerSet X
  on_scanned r (some s) =
      (true, update_earliest (record r { scanners = set_at r.earliest s r.scanners }))
  on_scanned r none =
      let left = remove_at r.earliest r.scanners in
      (is_nonempty left, update_earliest (record r { scanners = left }))

  -- `Record`, and then the rest of the reading.
  abbrev pub record_then :
      Option (FileScanner X) → Option (List (Record X)) → Option (List (Record X))
  record_then none rest = none
  record_then (some s) none = none
  record_then (some s) (some rs) = some (s.rec ∷ rs)

  abbrev pub read_on :
      Option (Bool × FileScannerSet X)
      → (FileScannerSet X → Option (List (Record X)))
      → Option (List (Record X))
  read_on none rest = none
  read_on (some (false, r)) rest = some []
  read_on (some (true, r)) rest = record_then (get_elem? r.scanners r.earliest) (rest r)

module _ {X : Type 0} (since until : Time) where
  -- `r.scanners[r.earliest].Scan()`, with `none` for an index out of range.
  abbrev pub scan_earliest :
      FileScannerSet X → Option (FileScanner X) → Option (Bool × FileScannerSet X)
  scan_earliest r none = none
  scan_earliest r (some s) = some (on_scanned r (scan_lines since until s.lines))

  -- `fileScannerSet.Scan`
  unfoldable pub scan_set : FileScannerSet X → Option (Bool × FileScannerSet X)
  scan_set r =
      if not r.scanned
      then some (is_nonempty r.scanners, record r { scanned = true })
      else if not (is_nonempty r.scanners)
      then some (false, r)
      else scan_earliest r (get_elem? r.scanners r.earliest)

  -- `for s.Scan() { s.Record() }`, with `none` for an index out of range or too little fuel.
  unfoldable pub read_all : ℕ → FileScannerSet X → Option (List (Record X))
  read_all zero r = none
  read_all (suc fuel) r = read_on (scan_set r) (λ next. read_all fuel next)

-- What `newFileScanner` gives for a path: there is no file, there is another error, or the lines.
pub data Opened (X : Type 0) : Type 0 where
  missing failed : Opened X
  opened : List (Line X) → Opened X

-- The variables of `newFileScannerSet`.
pub record Opening (X : Type 0) : Type 0 where
  pub scanners : List (FileScanner X)
  pub earliest : ℕ
  pub min : Time

module _ {X : Type 0} where
  -- The scanner is kept where its first `Scan` is true.
  abbrev pub add_scanner : Opening X → Option (FileScanner X) → Opening X
  add_scanner o none = o
  add_scanner o (some s) =
      let first = ltb s.rec.time o.min in
      record {
        scanners = o.scanners ++ s ∷ [];
        earliest = if first then length o.scanners else o.earliest;
        min = if first then s.rec.time else o.min;
      }

module _ {X : Type 0} (since until : Time) where
  -- The loop of `newFileScannerSet` over the paths.
  unfoldable pub open_all : Opening X → List (Opened X) → Option (FileScannerSet X)
  open_all o [] = some (record { scanners = o.scanners; scanned = false; earliest = o.earliest })
  open_all o (missing ∷ files) = open_all o files
  open_all o (failed ∷ files) = none
  open_all o (opened lines ∷ files) = open_all (add_scanner o (scan_lines since until lines)) files

  -- `newFileScannerSet`
  unfoldable pub new_file_scanner_set : List (Opened X) → Option (FileScannerSet X)
  new_file_scanner_set files = open_all (record { scanners = []; earliest = 0; min = far }) files
