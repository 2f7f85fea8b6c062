-- ===== src/Query/Parse/Flat.antt =====
-- internal/query/query.go: queries without OR and parentheses, and what a push does to the first level.
use ayd.Common.{
  Bool, true, false, not, ◌&&◌, ◌≡◌, refl, sym, ap, ◌∙◌, List, [], ◌∷◌, ◌++◌, Option, none, some,
  get_last?, if◌then◌else◌, Bool-cases, inl, inr, arith,
}
use mathlib.Core.Bool.{false≢true}
use ayd.Api.Record.{Record}
use ayd.Query.Ast.{
  Matchers, Query, Queries, not_query, simple_query, field_query, nil, cons, match, match_and,
}
use ayd.Query.Parse.{
  Token, Node, Parser, and_at, or_at, not_node, simple_node, field_node, not_token, simple_keyword,
  field_keyword, set_queries, reset, push_and, push_or, push_on, push_query, negated,
}
use ayd.Query.Parse.Negation.{ends_with_or}

module _ (m : Matchers) where
  -- A keyword, whether its token says `Not`, and whether a NOT stands before it.
  pub data Keyword : Type 0 where
    simple : m.ValueMatcher → Keyword
    field : m.StringMatcher → m.ValueMatcher → Keyword

  pub record Literal : Type 0 where
    pub after_not : Bool
    pub negative : Bool
    pub keyword : Keyword

module _ {m : Matchers} where
  abbrev pub keyword_token : Bool → Keyword m → Token m
  keyword_token negative (simple v) = simple_keyword negative v
  keyword_token negative (field k v) = field_keyword negative k v

  abbrev pub tokens_of : List (Literal m) → List (Token m)
  tokens_of [] = []
  tokens_of (l ∷ ls) =
      let rest = keyword_token l.negative l.keyword ∷ tokens_of ls in
      if l.after_not then not_token ∷ rest else rest

  abbrev pub keyword_query : Keyword m → Query m
  keyword_query (simple v) = simple_query v
  keyword_query (field k v) = field_query k v

  -- Whether the record matches the literal.
  abbrev pub literal_match : Literal m → Record m.Any → Bool
  literal_match l r =
      let plain = match m (keyword_query l.keyword) r in
      let own = if l.negative then not plain else plain in if l.after_not then not own else own

  abbrev pub all_match : List (Literal m) → Record m.Any → Bool
  all_match [] r = true
  all_match (l ∷ ls) r = literal_match l r && all_match ls r

  abbrev pub keyword_node : Keyword m → Node m
  keyword_node (simple v) = simple_node v
  keyword_node (field k v) = field_node k v

  -- The node and the query of a literal.
  abbrev pub node_of : Literal m → Node m
  node_of l =
      let own = negated l.negative (keyword_node l.keyword) in
      if l.after_not then not_node own else own

  abbrev pub query_of : Literal m → Query m
  query_of l =
      let plain = keyword_query l.keyword in
      let own = if l.negative then not_query plain else plain in
      if l.after_not then not_query own else own

  abbrev pub nodes_of : List (Literal m) → List (Node m)
  nodes_of [] = []
  nodes_of (l ∷ ls) = node_of l ∷ nodes_of ls

  abbrev pub queries_of : List (Literal m) → Queries m
  queries_of [] = nil
  queries_of (l ∷ ls) = cons (query_of l) (queries_of ls)

  match-query_of : (l : Literal m) (r : Record m.Any) → match m (query_of l) r ≡ literal_match l r
  unfolding match
  match-query_of l r = elim (Bool-cases l.after_not) [
    | inl a ↦ rw a (elim (Bool-cases l.negative) [ inl b ↦ rw b | inr b ↦ rw b ])
    | inr a ↦ rw a (elim (Bool-cases l.negative) [ inl b ↦ rw b | inr b ↦ rw b ])
  ]

  pub match_and-queries_of :
      (ls : List (Literal m)) (r : Record m.Any) → match_and m (queries_of ls) r ≡ all_match ls r
  unfolding match
  match_and-queries_of [] r = refl
  match_and-queries_of (l ∷ ls) r = ground (arith, match-query_of l r, match_and-queries_of ls r)

  -- The parser on the first level, with these queries and no OR among them.
  pub record IsFlat (p : Parser m) (qs : List (Node m)) : Type 0 where
    pub one_level : p.stack ≡ 0 ∷ []
    pub no_or : p.or_mode ≡ false
    pub queries : (p.ands 0).queries ≡ qs
    pub plain : ends_with_or (get_last? qs) ≡ false

  push_and-plain :
      (p : Parser m) (last : Option (Node m)) (q : Node m)
      → ends_with_or last ≡ false
      → push_and p 0 last q ≡ reset (set_queries p 0 ((p.ands 0).queries ++ q ∷ []))
  unfolding push_and
  push_and-plain p none q h = refl
  push_and-plain p (some (and_at a)) q h = refl
  push_and-plain p (some (or_at a)) q h = absurd (false≢true (sym h))
  push_and-plain p (some (not_node n)) q h = refl
  push_and-plain p (some (simple_node v)) q h = refl
  push_and-plain p (some (field_node k v)) q h = refl

  pub push_query-plain :
      (p : Parser m) (qs : List (Node m)) (n : Bool) (q : Node m)
      → IsFlat p qs
      → p.not_mode ≡ n
      → push_query p q
        ≡ reset (set_queries p 0 ((p.ands 0).queries ++ (if n then not_node q else q) ∷ []))
  unfolding push_query
  push_query-plain p qs n q flat e =
      let q' = if n then not_node q else q in
      ap (λ b. push_on p (if b then not_node q else q) p.stack) e
      ∙ ap (push_on p q') flat.one_level
      ∙ ap
          (λ b.
            if b then reset (push_or p 0 q') else push_and p 0 (get_last? (p.ands 0).queries) q')
          flat.no_or
      ∙ push_and-plain p (get_last? (p.ands 0).queries) q'
          (ap (λ qs. ends_with_or (get_last? qs)) flat.queries ∙ flat.plain)

  get_last-concat : (qs : List (Node m)) (q : Node m) → get_last? (qs ++ q ∷ []) ≡ some q
  get_last-concat [] q = refl
  get_last-concat (x ∷ []) q = refl
  get_last-concat (x ∷ y ∷ qs) q = get_last-concat (y ∷ qs) q

  pub pushed-IsFlat :
      (p : Parser m) (qs : List (Node m)) (q : Node m)
      → IsFlat p qs
      → ends_with_or (some q) ≡ false
      → IsFlat (reset (set_queries p 0 ((p.ands 0).queries ++ q ∷ []))) (qs ++ q ∷ [])
  unfolding reset set_queries
  pushed-IsFlat p qs q flat plain = record {
    one_level = flat.one_level;
    no_or = refl;
    queries = ap (λ qs. qs ++ q ∷ []) flat.queries;
    plain = ap ends_with_or (get_last-concat qs q) ∙ plain;
  }
