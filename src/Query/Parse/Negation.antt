-- ===== src/Query/Parse/Negation.antt =====
-- internal/query/query.go: how long a NOT is in force in `ParseQuery`.
use ayd.Common.{
  ℕ, Bool, true, false, not, ◌&&◌, ◌≡◌, refl, ap, ◌∙◌, List, ◌∷◌, Option, none, some, get_last?,
  if◌then◌else◌, arith,
}
use ayd.Query.Ast.{Matchers}
use ayd.Query.Parse.{
  Node, Parser, and_at, or_at, not_node, simple_node, field_node, push_and, push_last, push_or,
  reset, push_on, push_query,
}

module _ {m : Matchers} where
  -- The query ends with an `Or`.
  abbrev pub ends_with_or : Option (Node m) → Bool
  ends_with_or (some (or_at o)) = true
  ends_with_or last = false

  not_mode-push_last :
      (p : Parser m) (o : ℕ) (last : Option (Node m)) (q : Node m)
      → (push_last p o last q).not_mode ≡ p.not_mode
  unfolding push_last
  not_mode-push_last p o none q = refl
  not_mode-push_last p o (some (and_at a)) q = refl
  not_mode-push_last p o (some (or_at a)) q = refl
  not_mode-push_last p o (some (not_node n)) q = refl
  not_mode-push_last p o (some (simple_node v)) q = refl
  not_mode-push_last p o (some (field_node k v)) q = refl

  not_mode-push_and :
      (p : Parser m) (top : ℕ) (last : Option (Node m)) (q : Node m)
      → (push_and p top last q).not_mode ≡ (p.not_mode && ends_with_or last)
  unfolding push_and
  not_mode-push_and p top none q = ground arith
  not_mode-push_and p top (some (and_at a)) q = ground arith
  not_mode-push_and p top (some (or_at o)) q =
      not_mode-push_last p o (get_last? (p.ors o)) q ∙ ground arith
  not_mode-push_and p top (some (not_node n)) q = ground arith
  not_mode-push_and p top (some (simple_node v)) q = ground arith
  not_mode-push_and p top (some (field_node k v)) q = ground arith

  not_mode-branch :
      (p : Parser m) (top : ℕ) (q : Node m) (after_or : Bool)
      → (if after_or
          then reset (push_or p top q)
          else push_and p top (get_last? (p.ands top).queries) q).not_mode
        ≡ (p.not_mode && (not after_or && ends_with_or (get_last? (p.ands top).queries)))
  unfolding reset
  not_mode-branch p top q true = ground arith
  not_mode-branch p top q false = not_mode-push_and p top (get_last? (p.ands top).queries) q

  -- A NOT is used up by the query that follows it, with one exception: behind an OR and its first
  -- query, which make the level end with an `Or`, it stays in force for the queries after it.
  pub not_mode-push_query :
      (p : Parser m) (top : ℕ) (below : List ℕ) (q : Node m)
      → p.stack ≡ top ∷ below
      → (push_query p q).not_mode
        ≡ (p.not_mode && (not p.or_mode && ends_with_or (get_last? (p.ands top).queries)))
  unfolding push_query
  not_mode-push_query p top below q e =
      let q' = if p.not_mode then not_node q else q in
      ap (λ stack. (push_on p q' stack).not_mode) e ∙ not_mode-branch p top q' p.or_mode
