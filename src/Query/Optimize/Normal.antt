-- ===== src/Query/Optimize/Normal.antt =====
-- internal/query/query.go: the form that `Optimize` reaches, and how matching, height and form go
-- through the appends and negations of child lists.
use ayd.Common.{
  ◌+◌, ◌≤◌, max, Bool, true, false, not, ◌&&◌, ◌≡◌, refl, Option, none, some, arith, if◌then◌else◌,
}
use ayd.Api.Record.{Record}
use ayd.Query.Ast.{Matchers, Query, Queries, and_query, or_query, not_query, simple_query}
use ayd.Query.Ast.{field_query, nil, cons, append, match, match_and, match_or}
use ayd.Query.Optimize.{negate_all, depth, depth_all}

module _ {m : Matchers} where
  unfoldable pub is_and : Query m → Bool
  is_and (and_query qs paren) = true
  is_and q = false

  unfoldable pub is_or : Query m → Bool
  is_or (or_query qs) = true
  is_or q = false

  unfoldable pub is_leaf : Query m → Bool
  is_leaf (simple_query v) = true
  is_leaf (field_query k v) = true
  is_leaf q = false

  -- No conjunction stands right under a conjunction, no disjunction right under a disjunction, and
  -- only a leaf under a negation.
  unfoldable mutual
    pub is_normal : Query m → Bool
    is_normal (and_query qs paren) = normal_under_and qs
    is_normal (or_query qs) = normal_under_or qs
    is_normal (not_query q) = is_leaf q
    is_normal (simple_query v) = true
    is_normal (field_query k v) = true

    pub normal_under_and : Queries m → Bool
    normal_under_and nil = true
    normal_under_and (cons q qs) = not (is_and q) && (is_normal q && normal_under_and qs)

    pub normal_under_or : Queries m → Bool
    normal_under_or nil = true
    normal_under_or (cons q qs) = not (is_or q) && (is_normal q && normal_under_or qs)

  -- The optimised query exists, matches the same records, is no higher and is in normal form.
  abbrev pub Improves : Query m → Option (Query m) → Type 0
  Improves q none = ⊥
  Improves q (some q') =
      ((r : Record m.Any) → match m q' r ≡ match m q r)
      × (depth q' ≤ depth q)
      × (is_normal q' ≡ true)

  pub match_and-append :
      (xs ys : Queries m) (r : Record m.Any)
      → match_and m (append m xs ys) r ≡ (match_and m xs r && match_and m ys r)
  unfolding append match
  match_and-append nil ys r = refl
  match_and-append (cons q qs) ys r = ground (arith, match_and-append qs ys r)

  pub match_or-append :
      (xs ys : Queries m) (r : Record m.Any)
      → match_or m (append m xs ys) r ≡ (if match_or m xs r then true else match_or m ys r)
  unfolding append match
  match_or-append nil ys r = refl
  match_or-append (cons q qs) ys r = ground (arith, match_or-append qs ys r)

  pub depth_all-append :
      (xs ys : Queries m) → depth_all (append m xs ys) ≡ max (depth_all xs) (depth_all ys)
  unfolding append depth
  depth_all-append nil ys = omega arith
  depth_all-append (cons q qs) ys = omega (arith, depth_all-append qs ys)

  pub normal_under_and-append :
      (xs ys : Queries m)
      → normal_under_and xs ≡ true
      → normal_under_and ys ≡ true
      → normal_under_and (append m xs ys) ≡ true
  unfolding append is_normal
  normal_under_and-append nil ys h k = k
  normal_under_and-append (cons q qs) ys h k = ground (arith, normal_under_and-append qs ys)

  pub normal_under_or-append :
      (xs ys : Queries m)
      → normal_under_or xs ≡ true
      → normal_under_or ys ≡ true
      → normal_under_or (append m xs ys) ≡ true
  unfolding append is_normal
  normal_under_or-append nil ys h k = k
  normal_under_or-append (cons q qs) ys h k = ground (arith, normal_under_or-append qs ys)

  pub match_or-negate_all :
      (qs : Queries m) (r : Record m.Any) → match_or m (negate_all qs) r ≡ not (match_and m qs r)
  unfolding negate_all match
  match_or-negate_all nil r = refl
  match_or-negate_all (cons q qs) r = ground (arith, match_or-negate_all qs r)

  pub match_and-negate_all :
      (qs : Queries m) (r : Record m.Any) → match_and m (negate_all qs) r ≡ not (match_or m qs r)
  unfolding negate_all match
  match_and-negate_all nil r = refl
  match_and-negate_all (cons q qs) r = ground (arith, match_and-negate_all qs r)

  pub depth_all-negate_all : (qs : Queries m) → depth_all (negate_all qs) ≤ depth_all qs + 1
  unfolding negate_all depth
  depth_all-negate_all nil = omega arith
  depth_all-negate_all (cons q qs) = omega (arith, depth_all-negate_all qs)

  pub leaf-is_normal : (q : Query m) → is_leaf q ≡ true → is_normal q ≡ true
  unfolding is_leaf is_normal
  leaf-is_normal (simple_query v) h = refl
  leaf-is_normal (field_query k v) h = refl
  leaf-is_normal q h = cc
