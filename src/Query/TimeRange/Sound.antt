-- ===== src/Query/TimeRange/Sound.antt =====
-- internal/query/query.go: which records `TimeRange` keeps in its period.
use ayd.Common.{Bool, true, ◌≡◌, sym, none, ◌⊎◌, inl, inr}
use mathlib.Core.Path.{subst, subst₂}
use mathlib.Core.Bool.{false≢true}
use ayd.Api.Record.{Record}
use ayd.Query.Ast.{Matchers, Query, Queries, and_query, or_query, not_query, simple_query}
use ayd.Query.Ast.{field_query, nil, cons, match, match_and, match_or}
use ayd.Query.TimeRange.{Range, later, earlier, time_range, range_and, range_or}
use ayd.Query.TimeRange.Period.{
  is_some, InRange, later-FromStart, earlier-ToEnd, drop_inverted-InRange, is_some-earlier,
  is_some-later, first, first_lem, widen, flip-InRange, not_both, both, either,
}

module _ {m : Matchers} where
  -- All alternatives have a start, or none has; and so for the end.
  abbrev pub Aligned : Bool → Bool → Queries m → Type 0
  Aligned s e nil = Unit
  Aligned s e (cons q qs) =
      (is_some (time_range q).0 ≡ s) × (is_some (time_range q).1 ≡ e) × Aligned s e qs

  abbrev pub Uniform : Queries m → Type 0
  Uniform nil = Unit
  Uniform (cons q qs) = Aligned (is_some (time_range q).0) (is_some (time_range q).1) qs

  -- Where the period is what it should be: at a leaf it covers the records that match, under a
  -- negation all records in it match, and alternatives are bounded alike.
  unfoldable mutual
    pub IsBounded : Query m → Type 0
    IsBounded (and_query qs paren) = AllBounded qs
    IsBounded (or_query qs) = AllBounded qs × Uniform qs
    IsBounded (not_query q) =
        (r : Record m.Any) → InRange (time_range q) r.time → match m q r ≡ true
    IsBounded (simple_query v) =
        (r : Record m.Any)
        → match m (simple_query v) r ≡ true
        → InRange (time_range {m = m} (simple_query v)) r.time
    IsBounded (field_query k v) =
        (r : Record m.Any)
        → match m (field_query k v) r ≡ true
        → InRange (time_range {m = m} (field_query k v)) r.time

    pub AllBounded : Queries m → Type 0
    AllBounded nil = Unit
    AllBounded (cons q qs) = IsBounded q × AllBounded qs

  mutual
    unfolding time_range match IsBounded

    covered :
        (q : Query m) (r : Record m.Any)
        → IsBounded q
        → match m q r ≡ true
        → InRange (time_range q) r.time
    covered (and_query qs paren) r b h = covered_and qs r (none, none) b h (tt, tt)
    covered (or_query qs) r b h =
        drop_inverted-InRange (range_or qs (none, none)) r.time (covered_or qs r b.0 b.1 h)
    covered (not_query q) r b h =
        flip-InRange (time_range q) r.time (λ within. not_both (match m q r) (b r within) h)
    covered (simple_query v) r b h = b r h
    covered (field_query k v) r b h = b r h

    covered_and :
        (qs : Queries m) (r : Record m.Any) (acc : Range)
        → AllBounded qs
        → match_and m qs r ≡ true
        → InRange acc r.time
        → InRange (range_and qs acc) r.time
    covered_and nil r acc b h k = k
    covered_and (cons q qs) r acc b h k =
        let (head, rest) = both (match m q r) (match_and m qs r) h in
        let (from, to) = covered q r b.0 head in
        covered_and qs r (later (time_range q).0 acc.0, earlier (time_range q).1 acc.1) b.1 rest
          (
            later-FromStart (time_range q).0 acc.0 r.time from k.0,
            earlier-ToEnd (time_range q).1 acc.1 r.time to k.1,
          )

    covered_or :
        (qs : Queries m) (r : Record m.Any)
        → AllBounded qs
        → Uniform qs
        → match_or m qs r ≡ true
        → InRange (range_or qs (none, none)) r.time
    covered_or nil r b u h = (tt, tt)
    covered_or (cons q qs) r b u h =
        covered_rest qs r (first (time_range q)) b.1
          (subst (λ (x : Range). Aligned (is_some x.0) (is_some x.1) qs)
            (sym (first_lem (time_range q))) u)
          (elim (either (match m q r) (match_or m qs r) h) [
            | inl head ↦ inl (
                subst (λ (x : Range). InRange x r.time) (sym (first_lem (time_range q)))
                  (covered q r b.0 head))
            | inr rest ↦ inr rest
          ])

    covered_rest :
        (qs : Queries m) (r : Record m.Any) (acc : Range)
        → AllBounded qs
        → Aligned (is_some acc.0) (is_some acc.1) qs
        → InRange acc r.time ⊎ (match_or m qs r ≡ true)
        → InRange (range_or qs acc) r.time
    covered_rest nil r acc b u (inl h) = h
    covered_rest nil r acc b u (inr h) = absurd (false≢true h)
    covered_rest (cons q qs) r acc b u h =
        covered_rest qs r (earlier (time_range q).0 acc.0, later (time_range q).1 acc.1) b.1
          (subst₂ (λ (x y : Bool). Aligned x y qs)
            (sym (is_some-earlier (time_range q).0 acc.0 u.0))
            (sym (is_some-later (time_range q).1 acc.1 u.1)) u.2)
          (widen (time_range q) acc r.time u.0 u.1 (elim h [
            | inl k ↦ inl (inl k)
            | inr k ↦ elim (either (match m q r) (match_or m qs r) k) [
              | inl head ↦ inl (inr (covered q r b.0 head))
              | inr rest ↦ inr rest
            ]
          ]))

  -- A record that matches the query lies in the period that `TimeRange` gives for it, where the
  -- query is bounded: each leaf matches only in its own period, a query under a NOT matches all
  -- records in its period, and the alternatives of an OR have a start or none of them has, and so
  -- for the end.
  pub time_range-covers :
      (q : Query m) (r : Record m.Any)
      → IsBounded q
      → match m q r ≡ true
      → InRange (time_range q) r.time
  time_range-covers q r b h = covered q r b h
