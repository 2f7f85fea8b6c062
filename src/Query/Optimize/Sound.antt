-- ===== src/Query/Optimize/Sound.antt =====
-- internal/query/query.go: `Optimize` ends, keeps the meaning of a query and reaches a normal form.
use ayd.Common.{
  ℕ, zero, suc, ◌+◌, ◌*◌, ◌≤◌, ◌<◌, Bool, true, false, ◌≡◌, refl, Option, none, some, arith,
}
use ayd.Api.Record.{Record}
use ayd.Query.Ast.{Matchers, Query, Queries, and_query, or_query, not_query, simple_query}
use ayd.Query.Ast.{field_query, nil, cons, match, match_and, match_or}
use ayd.Query.Optimize.{
  join_and, join_or, optimize_each, collapse, negate_all, invert, optimize_fuel, depth, depth_all,
  rank, optimize, ◌>>=◌,
}
use ayd.Query.Optimize.Normal.{
  is_and, is_or, is_leaf, is_normal, normal_under_and, normal_under_or, Improves, match_and-append,
  match_or-append, depth_all-append, normal_under_and-append, normal_under_or-append,
  match_or-negate_all, match_and-negate_all, depth_all-negate_all, leaf-is_normal,
}

module _ {m : Matchers} where
  -- The optimised children: what `Improves` says, for a list under a conjunction or a disjunction.
  abbrev ImprovesAnd : Queries m → Option (Queries m) → Type 0
  ImprovesAnd qs none = ⊥
  ImprovesAnd qs (some qs') =
      ((r : Record m.Any) → match_and m qs' r ≡ match_and m qs r)
      × (depth_all qs' ≤ depth_all qs)
      × (normal_under_and qs' ≡ true)

  abbrev ImprovesOr : Queries m → Option (Queries m) → Type 0
  ImprovesOr qs none = ⊥
  ImprovesOr qs (some qs') =
      ((r : Record m.Any) → match_or m qs' r ≡ match_or m qs r)
      × (depth_all qs' ≤ depth_all qs)
      × (normal_under_or qs' ≡ true)

  join_and-ImprovesAnd :
      (q q' : Query m) (qs qs' : Queries m)
      → Improves q (some q')
      → ImprovesAnd qs (some qs')
      → ImprovesAnd (cons q qs) (some (join_and q' qs'))
  unfolding join_and match depth is_normal is_and
  join_and-ImprovesAnd q (and_query xs paren) qs qs' (same, low, normal) (same', low', normal') = (
    λ r. ground (arith, same r, same' r, match_and-append xs qs' r),
    omega (arith, depth_all-append xs qs'),
    normal_under_and-append xs qs' normal normal',
  )
  join_and-ImprovesAnd q q' qs qs' (same, low, normal) (same', low', normal') =
      (λ r. ground (arith, same r, same' r), omega arith, ground arith)

  join_or-ImprovesOr :
      (q q' : Query m) (qs qs' : Queries m)
      → Improves q (some q')
      → ImprovesOr qs (some qs')
      → ImprovesOr (cons q qs) (some (join_or q' qs'))
  unfolding join_or match depth is_normal is_or
  join_or-ImprovesOr q (or_query xs) qs qs' (same, low, normal) (same', low', normal') = (
    λ r. ground (arith, same r, same' r, match_or-append xs qs' r),
    omega (arith, depth_all-append xs qs'),
    normal_under_or-append xs qs' normal normal',
  )
  join_or-ImprovesOr q q' qs qs' (same, low, normal) (same', low', normal') =
      (λ r. ground (arith, same r, same' r), omega arith, ground arith)

  -- What is needed of the optimiser at the children: it improves every query of height at most `d`.
  abbrev ImprovesUpTo : ℕ → (Query m → Option (Query m)) → Type 0
  ImprovesUpTo d opt = (q : Query m) → depth q ≤ d → Improves q (opt q)

  step_and :
      (q : Query m) (o : Option (Query m)) (qs : Queries m) (os : Option (Queries m))
      → Improves q o
      → ImprovesAnd qs os
      → ImprovesAnd (cons q qs) (o >>= λ q'. os >>= λ qs'. some (join_and q' qs'))
  step_and q none qs os h k = absurd h
  step_and q (some q') qs none h k = absurd k
  step_and q (some q') qs (some qs') h k = join_and-ImprovesAnd q q' qs qs' h k

  step_or :
      (q : Query m) (o : Option (Query m)) (qs : Queries m) (os : Option (Queries m))
      → Improves q o
      → ImprovesOr qs os
      → ImprovesOr (cons q qs) (o >>= λ q'. os >>= λ qs'. some (join_or q' qs'))
  step_or q none qs os h k = absurd h
  step_or q (some q') qs none h k = absurd k
  step_or q (some q') qs (some qs') h k = join_or-ImprovesOr q q' qs qs' h k

  optimize_each-ImprovesAnd :
      (opt : Query m → Option (Query m)) (d : ℕ) (qs : Queries m)
      → ImprovesUpTo d opt
      → depth_all qs ≤ d
      → ImprovesAnd qs (optimize_each opt join_and qs)
  unfolding optimize_each depth is_normal
  optimize_each-ImprovesAnd opt d nil h low = (λ r. refl, omega arith, refl)
  optimize_each-ImprovesAnd opt d (cons q qs) h low =
      step_and q (opt q) qs (optimize_each opt join_and qs) (h q (omega arith))
        (optimize_each-ImprovesAnd opt d qs h (omega arith))

  optimize_each-ImprovesOr :
      (opt : Query m → Option (Query m)) (d : ℕ) (qs : Queries m)
      → ImprovesUpTo d opt
      → depth_all qs ≤ d
      → ImprovesOr qs (optimize_each opt join_or qs)
  unfolding optimize_each depth is_normal
  optimize_each-ImprovesOr opt d nil h low = (λ r. refl, omega arith, refl)
  optimize_each-ImprovesOr opt d (cons q qs) h low =
      step_or q (opt q) qs (optimize_each opt join_or qs) (h q (omega arith))
        (optimize_each-ImprovesOr opt d qs h (omega arith))

  collapse-Improves :
      (qs : Queries m) (paren : Bool) (o : Option (Queries m))
      → ImprovesAnd qs o
      → Improves (and_query qs paren) (o >>= λ qs'. some (collapse qs' paren))
  unfolding collapse match depth is_normal
  collapse-Improves qs paren none h = absurd h
  collapse-Improves qs paren (some nil) (same, low, normal) = (same, omega arith, refl)
  collapse-Improves qs paren (some (cons q nil)) (same, low, normal) =
      (λ r. ground (arith, same r), omega arith, ground arith)
  collapse-Improves qs paren (some (cons q (cons p ps))) (same, low, normal) =
      (same, omega arith, normal)

  or-Improves :
      (qs : Queries m) (o : Option (Queries m))
      → ImprovesOr qs o
      → Improves (or_query qs) (o >>= λ qs'. some (or_query qs'))
  unfolding match depth is_normal
  or-Improves qs none h = absurd h
  or-Improves qs (some qs') (same, low, normal) = (same, omega arith, normal)

  -- Improving is transitive where the first step negates.
  after_negation :
      (q p : Query m) (o : Option (Query m))
      → ((r : Record m.Any) → match m p r ≡ match m (not_query q) r)
      → depth p ≤ depth (not_query q)
      → Improves p o
      → Improves (not_query q) o
  after_negation q p none same low h = h
  after_negation q p (some p') same low (same', low', normal') =
      (λ r. ground (arith, same r, same' r), omega arith, normal')

  -- `rank` of a query that is no negation, or any query, against the fuel of the caller.
  rank-le : (q : Query m) → rank q ≤ 2 * depth q + 1
  unfolding rank
  rank-le (not_query q) = omega arith
  rank-le q = omega arith

  -- The end of `Not.Optimize`, at an optimiser that improves whatever ranks below the fuel.
  invert-Improves :
      (f : ℕ) (opt : Query m → Option (Query m)) (q : Query m) (o : Option (Query m))
      → ((p : Query m) → rank p < f → Improves p (opt p))
      → 2 * depth q + 2 < f
      → Improves q o
      → Improves (not_query q) (o >>= λ q'. invert opt q')
  unfolding invert match depth is_normal rank is_leaf
  invert-Improves f opt q none h low k = absurd k
  invert-Improves f opt q (some (and_query qs paren)) h low (same, low', normal) =
      after_negation q (or_query (negate_all qs)) (opt (or_query (negate_all qs)))
        (λ r. ground (arith, same r, match_or-negate_all qs r))
        (omega (arith, depth_all-negate_all qs))
        (h (or_query (negate_all qs)) (omega (arith, depth_all-negate_all qs)))
  invert-Improves f opt q (some (or_query qs)) h low (same, low', normal) =
      after_negation q (and_query (negate_all qs) false) (opt (and_query (negate_all qs) false))
        (λ r. ground (arith, same r, match_and-negate_all qs r))
        (omega (arith, depth_all-negate_all qs))
        (h (and_query (negate_all qs) false) (omega (arith, depth_all-negate_all qs)))
  invert-Improves f opt q (some (not_query p)) h low (same, low', normal) =
      (λ r. ground (arith, same r), omega arith, leaf-is_normal p normal)
  invert-Improves f opt q (some (simple_query v)) h low (same, low', normal) =
      (λ r. ground (arith, same r), omega arith, refl)
  invert-Improves f opt q (some (field_query k v)) h low (same, low', normal) =
      (λ r. ground (arith, same r), omega arith, refl)

  below :
      (f d : ℕ) (opt : Query m → Option (Query m))
      → ((p : Query m) → rank p < f → Improves p (opt p))
      → 2 * d + 1 < f
      → ImprovesUpTo d opt
  below f d opt h low q shallow = h q (omega (arith, rank-le q))

  optimize_fuel-Improves : (f : ℕ) (q : Query m) → rank q < f → Improves q (optimize_fuel f q)
  unfolding optimize_fuel rank depth match is_normal
  optimize_fuel-Improves zero q h = absurd (omega arith)
  optimize_fuel-Improves (suc f) (and_query qs paren) h =
      collapse-Improves qs paren (optimize_each (optimize_fuel f) join_and qs) (
        optimize_each-ImprovesAnd (optimize_fuel f) (depth_all qs) qs
          (below f (depth_all qs) (optimize_fuel f) (optimize_fuel-Improves f) (omega arith))
          (omega arith))
  optimize_fuel-Improves (suc f) (or_query qs) h =
      or-Improves qs (optimize_each (optimize_fuel f) join_or qs) (
        optimize_each-ImprovesOr (optimize_fuel f) (depth_all qs) qs
          (below f (depth_all qs) (optimize_fuel f) (optimize_fuel-Improves f) (omega arith))
          (omega arith))
  optimize_fuel-Improves (suc f) (not_query q) h =
      invert-Improves f (optimize_fuel f) q (optimize_fuel f q) (optimize_fuel-Improves f)
        (omega arith) (optimize_fuel-Improves f q (omega (arith, rank-le q)))
  optimize_fuel-Improves (suc f) (simple_query v) h = (λ r. refl, omega arith, refl)
  optimize_fuel-Improves (suc f) (field_query k v) h = (λ r. refl, omega arith, refl)

  -- The optimiser ends on every query, and its result matches exactly the same records, is no
  -- higher than the query and has no nested conjunctions or disjunctions and no negation but of a
  -- leaf.
  pub optimize-Improves : (q : Query m) → Improves q (optimize q)
  unfolding optimize
  optimize-Improves q = optimize_fuel-Improves (rank q + 1) q (omega arith)
