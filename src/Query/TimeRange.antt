-- ===== src/Query/TimeRange.antt =====
-- internal/query/query.go: `TimeRange`, the period that a query can match. `Add(-1)` at the zero
-- instant stays at the zero instant, the first of the model.
pub mod Period
pub mod Sound
pub mod Gap
use ayd.Common.{
  ℕ, ◌+◌, ◌-◌, ◌≤◌, Bool, true, false, not, Option, none, some, codes, ltb, if◌then◌else◌,
}
use ayd.Api.Record.{Time}
use ayd.Query.Ast.{Matchers, Query, Queries, and_query, or_query, not_query, simple_query}
use ayd.Query.Ast.{field_query, nil, cons}

-- The two results of `TimeRange`.
abbrev pub Range : Type 0
Range = Option Time × Option Time

-- `if s != nil && (start == nil || s.After(*start)) { start = s }`
unfoldable pub later : Option Time → Option Time → Option Time
later none start = start
later (some s) none = some s
later (some s) (some start) = if ltb start s then some s else some start

-- `if e != nil && (end == nil || e.Before(*end)) { end = e }`
unfoldable pub earlier : Option Time → Option Time → Option Time
earlier none end = end
earlier (some e) none = some e
earlier (some e) (some end) = if ltb e end then some e else some end

-- The last test of `Or.TimeRange`: a range that ends before it starts is dropped.
unfoldable pub drop_inverted : Range → Range
drop_inverted (some start, some end) =
    if ltb end start then (none, none) else (some start, some end)
drop_inverted r = r

-- `Not.TimeRange` on the range of its query.
unfoldable pub flip : Range → Range
flip (none, none) = (none, none)
flip (some start, some end) = (none, none)
flip (some start, none) = (none, some (start - 1))
flip (none, some end) = (some (end + 1), none)

-- `m, ok := q.Value.(timeValueMatcher)`
unfoldable pub value_range : (m : Matchers) → m.ValueMatcher → Range
value_range m v = elim (m.time_range v) [ none ↦ (none, none) | some r ↦ r ]

module _ {m : Matchers} where
  unfoldable mutual
    pub time_range : Query m → Range
    time_range (and_query qs paren) = range_and qs (none, none)
    time_range (or_query qs) = drop_inverted (range_or qs (none, none))
    time_range (not_query q) = flip (time_range q)
    time_range (simple_query v) = value_range m v
    time_range (field_query k v) =
        if not (m.string_match k (codes "time")) then (none, none) else value_range m v

    -- The loop of `And.TimeRange`, over `start` and `end`.
    pub range_and : Queries m → Range → Range
    range_and nil acc = acc
    range_and (cons q qs) acc =
        range_and qs (later (time_range q).0 acc.0, earlier (time_range q).1 acc.1)

    -- The loop of `Or.TimeRange`.
    pub range_or : Queries m → Range → Range
    range_or nil acc = acc
    range_or (cons q qs) acc =
        range_or qs (earlier (time_range q).0 acc.0, later (time_range q).1 acc.1)
