-- ===== src/Query/Optimize.antt =====
-- internal/query/query.go: `Optimize` and `invert`. The calls are bounded by fuel, and `none` means
-- that it ran out.
pub mod Normal
pub mod Sound
use ayd.Common.{ℕ, zero, suc, ◌+◌, ◌*◌, max, Bool, false, Option, none, some}
use ayd.Query.Ast.{Matchers, Query, Queries, and_query, or_query, not_query, simple_query}
use ayd.Query.Ast.{field_query, nil, cons, append}

infixl 5 ◌>>=◌
abbrev pub ◌>>=◌ : {A B : Type 0} → Option A → (A → Option B) → Option B
none >>= f = none
some a >>= f = f a

module _ {m : Matchers} where
  -- `if and, ok := q.(*And); ok`: the children of an `And` join those of the parent.
  unfoldable pub join_and : Query m → Queries m → Queries m
  join_and (and_query xs paren) rest = append m xs rest
  join_and q rest = cons q rest

  unfoldable pub join_or : Query m → Queries m → Queries m
  join_or (or_query xs) rest = append m xs rest
  join_or q rest = cons q rest

  -- The loop of `And.Optimize` and of `Or.Optimize`, over the optimiser for the children.
  unfoldable pub optimize_each :
      (Query m → Option (Query m))
      → (Query m → Queries m → Queries m)
      → Queries m
      → Option (Queries m)
  optimize_each opt join nil = some nil
  optimize_each opt join (cons q qs) = do
    q' ← opt q
    rest ← optimize_each opt join qs
    some (join q' rest)

  -- `if len(qs) == 1 { return qs[0] }`
  unfoldable pub collapse : Queries m → Bool → Query m
  collapse (cons q nil) paren = q
  collapse qs paren = and_query qs paren

  -- `qs[i] = &Not{Query: q}` for each child.
  unfoldable pub negate_all : Queries m → Queries m
  negate_all nil = nil
  negate_all (cons q qs) = cons (not_query q) (negate_all qs)

  -- The end of `Not.Optimize`: the method `invert` of the optimised query, if it has one.
  unfoldable pub invert : (Query m → Option (Query m)) → Query m → Option (Query m)
  unfolding negate_all
  invert opt (and_query qs paren) = opt (or_query (negate_all qs))
  invert opt (or_query qs) = opt (and_query (negate_all qs) false)
  invert opt (not_query q) = some q
  invert opt q = some (not_query q)

  unfoldable pub optimize_fuel : ℕ → Query m → Option (Query m)
  unfolding collapse optimize_each
  optimize_fuel zero q = none
  optimize_fuel (suc f) (and_query qs paren) = do
    qs' ← optimize_each (optimize_fuel f) join_and qs
    some (collapse qs' paren)
  optimize_fuel (suc f) (or_query qs) = do
    qs' ← optimize_each (optimize_fuel f) join_or qs
    some (or_query qs')
  optimize_fuel (suc f) (not_query q) = do q' ← optimize_fuel f q; invert (optimize_fuel f) q'
  optimize_fuel (suc f) (simple_query v) = some (simple_query v)
  optimize_fuel (suc f) (field_query k v) = some (field_query k v)

  -- The height of a query, and the fuel that its optimisation takes.
  unfoldable mutual
    pub depth : Query m → ℕ
    depth (and_query qs paren) = suc (depth_all qs)
    depth (or_query qs) = suc (depth_all qs)
    depth (not_query q) = suc (depth q)
    depth (simple_query v) = 0
    depth (field_query k v) = 0

    pub depth_all : Queries m → ℕ
    depth_all nil = 0
    depth_all (cons q qs) = max (depth q) (depth_all qs)

  unfoldable pub rank : Query m → ℕ
  rank (not_query q) = 2 * depth (not_query q) + 1
  rank q = 2 * depth q

  -- `Optimize`
  unfoldable pub optimize : Query m → Option (Query m)
  unfolding optimize_fuel rank
  optimize q = optimize_fuel (rank q + 1) q
