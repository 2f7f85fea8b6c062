-- ===== src/Query/TimeRange/Gap.antt =====
-- internal/query/query.go: `Or.TimeRange` leaves alternatives without a period out of account.
use ayd.Common.{◌<◌, true, ◌≡◌, none, some, arith}
use ayd.Api.Record.{Time, Record}
use ayd.Query.Ast.{Matchers, Query, or_query, nil, cons, match}
use ayd.Query.TimeRange.{later, earlier, drop_inverted, time_range}
use ayd.Query.TimeRange.Period.{InRange}

module _ {m : Matchers} where
  -- Whatever the second alternative of `q OR p` matches before the start of `q` is a match of the
  -- query, and lies outside the period of the query, where `p` itself has no period.
  pub or-time_range_gap :
      (q p : Query m) (r : Record m.Any) (start : Time)
      → time_range q ≡ (some start, none)
      → time_range p ≡ (none, none)
      → match m p r ≡ true
      → r.time < start
      → (match m (or_query (cons q (cons p nil))) r ≡ true)
        × ¬ InRange (time_range (or_query (cons q (cons p nil)))) r.time
  unfolding time_range match later earlier drop_inverted
  or-time_range_gap q p r start hq hp h early = (ground arith, rw (hq, hp) (λ within. omega arith))
