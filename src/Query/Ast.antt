-- ===== src/Query/Ast.antt =====
-- internal/query/query.go: the queries, `Match` and the interface of the value matchers.
use ayd.Common.{Bool, true, false, not, ◌&&◌, List, [], ◌∷◌, Option, Bytes, codes, if◌then◌else◌}
use ayd.Api.Record.{Time, Value, Extra, Record, time, status, latency, target, message, one, many}

-- The interfaces `stringMatcher` and `valueMatcher`: the types of their implementations with the
-- method `Match`, and `time_range`, what `TimeRange` gives on a `timeValueMatcher` and `none` on
-- any other value matcher.
pub record Matchers : Type 1 where
  pub Any : Type 0
  pub StringMatcher : Type 0
  pub ValueMatcher : Type 0
  pub string_match : StringMatcher → Bytes → Bool
  pub value_match : ValueMatcher → Value Any → Bool
  pub time_range : ValueMatcher → Option (Option Time × Option Time)

module _ (m : Matchers) where
  open m use {Any, StringMatcher, ValueMatcher, string_match, value_match}

  mutual
    pub data Query : Type 0 where
      and_query : Queries → Bool → Query
      or_query : Queries → Query
      not_query : Query → Query
      simple_query : ValueMatcher → Query
      field_query : StringMatcher → ValueMatcher → Query

    pub data Queries : Type 0 where
      nil : Queries
      cons : Query → Queries → Queries

  -- `SimpleQuery.Match`
  unfoldable pub match_simple : ValueMatcher → Record Any → Bool
  match_simple v r =
      if value_match v (time r.time)
      then true
      else if value_match v (status r.status)
      then true
      else if value_match v (latency r.latency)
      then true
      else if value_match v (target r.target)
      then true
      else value_match v (message r.message)

  unfoldable pub match_many : ValueMatcher → List (Value Any) → Bool
  match_many v [] = false
  match_many v (x ∷ xs) = if value_match v x then true else match_many v xs

  unfoldable pub match_value : ValueMatcher → Extra Any → Bool
  unfolding match_many
  match_value v (one x) = value_match v x
  match_value v (many xs) = match_many v xs

  -- The loop of `FieldQuery.Match` over the extra fields.
  unfoldable pub match_extra :
      StringMatcher → ValueMatcher → List (record { key : Bytes; value : Extra Any }) → Bool
  unfolding match_value
  match_extra k v [] = false
  match_extra k v (e ∷ es) =
      let rest = match_extra k v es in
      if string_match k e.key && match_value v e.value then true else rest

  -- `FieldQuery.Match`
  unfoldable pub match_field : StringMatcher → ValueMatcher → Record Any → Bool
  unfolding match_extra
  match_field k v r =
      if string_match k (codes "time") && value_match v (time r.time)
      then true
      else if string_match k (codes "status") && value_match v (status r.status)
      then true
      else if string_match k (codes "latency") && value_match v (latency r.latency)
      then true
      else if string_match k (codes "target") && value_match v (target r.target)
      then true
      else if string_match k (codes "message") && value_match v (message r.message)
      then true
      else match_extra k v r.extra

  -- `Query.Match`, with the loops of `And.Match` and `Or.Match`.
  unfoldable mutual
    pub match : Query → Record Any → Bool
    match (and_query qs paren) r = match_and qs r
    match (or_query qs) r = match_or qs r
    match (not_query q) r = not (match q r)
    match (simple_query v) r = match_simple v r
    match (field_query k v) r = match_field k v r

    pub match_and : Queries → Record Any → Bool
    match_and nil r = true
    match_and (cons q qs) r = if not (match q r) then false else match_and qs r

    pub match_or : Queries → Record Any → Bool
    match_or nil r = false
    match_or (cons q qs) r = if match q r then true else match_or qs r

  -- `append(qs, xs...)`
  unfoldable pub append : Queries → Queries → Queries
  append nil ys = ys
  append (cons q qs) ys = cons q (append qs ys)
