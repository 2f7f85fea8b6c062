-- ===== src/Tests/Endpoint.antt =====
-- Runs of the paging of the log.
use ayd.Common.{true, ℕ, Bytes, ◌≡◌, refl, Bool, List, [], ◌∷◌, Option, some, leb, arith}
use ayd.Endpoint.Options.{Parameters}
use ayd.Tests.Matchers.{conditions}
use ayd.Tests.Query.{both}
use ayd.Endpoint.{raw_scanner, collect}
use ayd.Endpoint.Collect.{Reads, collect-page}

abbrev log : List ℕ
log = 7 ∷ 2 ∷ 9 ∷ 1 ∷ 8 ∷ 6 ∷ []

abbrev large : Option (ℕ → Bool)
large = some (λ n. leb 6 n)

second_page :
    collect (raw_scanner large) 9 1 2 (record { scanner = log; count = 0 })
    ≡ some (9 ∷ 8 ∷ [], record { scanner = 6 ∷ []; count = 3 })
unfolding collect raw_scanner
second_page = refl

collect-page_example :
    Reads 9
      (raw_scanner large)
      (9 ∷ 8 ∷ [])
      4
      (collect (raw_scanner large) 9 1 2 (record { scanner = log; count = 0 }))
collect-page_example = collect-page large 1 2 log 9 (omega arith)

abbrev request : Parameters conditions
request = record { any_given = true; limit = []; offset = []; query = both }

abbrev no_number : Bytes → ℕ × Bool
no_number text = (0, true)
