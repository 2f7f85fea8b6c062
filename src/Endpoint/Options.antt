-- ===== src/Endpoint/Options.antt =====
-- internal/endpoint/log.go: `newLogOptionsByRequest`. `parse_uint` is `strconv.ParseUint`, the number
-- that it returns and whether with an error, and `now` is the clock.
pub mod Gap
use ayd.Common.{
  ℕ, ◌-◌, ◌≤◌, ◌<◌, ◌⊎◌, leb, ◌==◌, Bool, false, ◌≡◌, List, [], ◌∷◌, ◌++◌, Option, none, some,
  Bytes, codes, if◌then◌else◌,
}
use ayd.Api.Record.{Time, Record}
use ayd.Query.Ast.{Matchers, Query}
use ayd.Query.TimeRange.{Range, time_range}

-- `logOptions`
pub record LogOptions (m : Matchers) : Type 0 where
  pub start : Time
  pub end : Time
  pub limit : ℕ
  pub offset : ℕ
  pub query : Option (Query m)

-- The period from the range of the query.
unfoldable pub period : Range → (now default_period : ℕ) → Time × Time
period (none, some en) now default_period = (en - default_period, en)
period (some st, none) now default_period = (st, now)
period (some st, some en) now default_period = (st, en)
period (none, none) now default_period = (now - default_period, now)

-- A number that is asked for, and whether it is invalid.
unfoldable pub number_option : (Bytes → ℕ × Bool) → Bytes → ℕ × Bool
number_option parse_uint [] = (0, false)
number_option parse_uint (c ∷ text) = parse_uint (c ∷ text)

-- The parameters of a request: whether there are any, and `limit`, `offset` and the query of `q`.
pub record Parameters (m : Matchers) : Type 0 where
  pub any_given : Bool
  pub limit : Bytes
  pub offset : Bytes
  pub query : Query m

-- The records that are read between two times: those of which `fileScanner.Scan` returns true.
abbrev pub IsRead : (start end t : Time) → Type 0
IsRead start end t = (start ≤ t) × (t < end)

-- The times in a range at which no record is read: before the default period where the range has no
-- start; from now on where it has no end; and else the end itself.
abbrev pub IsLeftOut : Range → (now default_period : ℕ) → Time → Type 0
IsLeftOut (none, none) now default_period t = (t < now - default_period) ⊎ (now ≤ t)
IsLeftOut (none, some en) now default_period t = (t < en - default_period) ⊎ (t ≡ en)
IsLeftOut (some st, none) now default_period t = now ≤ t
IsLeftOut (some st, some en) now default_period t = t ≡ en

-- Either of two, and not both.
abbrev pub OneOf : Type 0 → Type 0 → Type 0
OneOf A B = (A ⊎ B) × ¬ (A × B)

module _ {m : Matchers} where
  abbrev pub query_range : Option (Query m) → Range
  query_range none = (none, none)
  query_range (some q) = time_range q

  -- `newLogOptionsByRequest`: the options, and the names of the parameters that are invalid.
  unfoldable pub new_log_options :
      (Bytes → ℕ × Bool) → (now default_period : ℕ) → Parameters m → LogOptions m × List Bytes
  unfolding period number_option
  new_log_options parse_uint now default_period qs =
      let limit = number_option parse_uint qs.limit in
      let offset = number_option parse_uint qs.offset in
      let query = if qs.any_given then some qs.query else none in
      let p = period (query_range query) now default_period in
      (
        record { start = p.0; end = p.1; limit = limit.0; offset = offset.0; query = query },
        (if limit.1 then codes "limit" ∷ [] else [])
            ++ (if offset.1 then codes "offset" ∷ [] else []),
      )
