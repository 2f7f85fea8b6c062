-- ===== src/Tests/Logs.antt =====
-- Runs of the search in a log file and of the scanners of log files.
use mathlib.Core.List.{Permᴰ}
use ayd.Common.{
  ℕ, ◌≡◌, refl, true, false, List, [], ◌∷◌, ◌++◌, Option, none, some, Bytes, codes, arith, inl,
}
use ayd.Api.Record.{Record}
use ayd.Store.History.Order.{Rises}
use ayd.Store.Search.{
  Decoder, newline, line_end, narrow, pass_line, on_line, search_step, search_loop, search_log,
}
use ayd.Store.Search.Behind.{Behind}
use ayd.Store.Search.Outcome.{enough, search_log-Behind, search_log_stuck}
use ayd.Store.Scanner.{
  Line, FileScannerSet, Opened, missing, opened, scan_lines, earliest_from, set_at, remove_at,
  is_nonempty, scan_set, read_all, open_all, new_file_scanner_set,
}
use ayd.Store.Scanner.File.{kept, in_period}
use ayd.Store.Scanner.Log.{all_contents, read_all-in_period, read_all-Rises}
use ayd.Tests.Matchers.{sample}

abbrev second_byte : Bytes → Option ℕ
second_byte (b ∷ c ∷ s) = some c
second_byte s = none

-- A decoder that takes the byte behind the brace for the time.
abbrev braces : Decoder
braces = record { unmarshal = λ line old. (line, true); parse_time = second_byte }

abbrev body : Bytes
body = codes "{1" ++ newline ∷ codes "{2" ++ newline ∷ codes "{3"

abbrev lines : Bytes
lines = body ++ newline ∷ []

runs : Unit {0}
unfolding line_end narrow pass_line on_line search_step search_loop search_log scan_lines
    earliest_from set_at remove_at is_nonempty scan_set read_all open_all new_file_scanner_set kept
runs = tt

third_line : search_log braces 40 lines b'3' 0 ≡ some 6
unfolding runs
third_line = refl

search_log-Behind_example :
    (p : ℕ) × (search_log braces (enough 9) lines b'3' 0 ≡ some p) × Behind braces lines b'3' p
search_log-Behind_example =
    search_log-Behind braces lines b'3' 0 (inl (body, refl)) (λ start size old accepted. refl)

search_log_stuck_example : search_log braces 1000 (codes "{1{2{3") b'3' 0 ≡ none
unfolding runs
search_log_stuck_example = search_log_stuck braces (codes "{1{2{3") b'3' 0 1000 (omega arith) refl

abbrev line : ℕ → Line Unit
line t = record { size = 100; content = some (sample t []) }

abbrev noise : Line Unit
noise = record { size = 3; content = none }

abbrev files : List (Opened Unit)
files =
    opened (line 1 ∷ line 4 ∷ noise ∷ line 9 ∷ [])
    ∷ missing
    ∷ opened (line 2 ∷ line 3 ∷ line 6 ∷ [])
    ∷ []

abbrev opened_set : FileScannerSet Unit
opened_set = record {
  scanners =
      record { lines = noise ∷ line 9 ∷ []; rec = sample 4 [] }
      ∷ record { lines = line 3 ∷ line 6 ∷ []; rec = sample 2 [] }
      ∷ [];
  scanned = false;
  earliest = 1;
}

opening : new_file_scanner_set 2 9 files ≡ some opened_set
unfolding runs
opening = refl

abbrev merged : List (Record Unit)
merged = sample 2 [] ∷ sample 3 [] ∷ sample 4 [] ∷ sample 6 [] ∷ []

merging : read_all 2 9 5 opened_set ≡ some merged
unfolding runs
merging = refl

read_all-in_period_example :
    (rs : List (Record Unit)) × (read_all 2 9 5 opened_set ≡ some rs)
    × Permᴰ rs (in_period 2 9 (all_contents files))
unfolding runs
read_all-in_period_example =
    read_all-in_period 2 9 5 files opened_set refl (omega arith) (omega arith) (omega arith)

read_all-Rises_example :
    (rs : List (Record Unit)) × (read_all 2 9 5 opened_set ≡ some rs) × Rises rs
unfolding runs
read_all-Rises_example =
    read_all-Rises 2 9 5 files opened_set refl (omega arith) (omega arith) (omega arith)

-- Behind a line longer than the buffer the rest of the file is lost.
long_line :
    kept 2 9 (line 2 ∷ record { size = 5000; content = some (sample 3 []) } ∷ line 4 ∷ [])
    ≡ sample 2 [] ∷ []
unfolding runs
long_line = refl
