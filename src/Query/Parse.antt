-- ===== src/Query/Parse.antt =====
-- internal/query/query.go: `ParseQuery`, on the tokens of a query. The nodes `And` and `Or` are shared
-- by pointers and written through them, so they are cells of a heap; the other nodes hold their parts.
pub mod Negation
pub mod Flat
pub mod Conjunction
use ayd.Common.{
  ℕ, zero, suc, ◌+◌, ◌*◌, Bool, true, false, not, List, [], ◌∷◌, ◌++◌, Option, none, some, ◌==◌,
  get_last?, drop_last, if◌then◌else◌,
}
use ayd.Query.Ast.{Matchers, Query, Queries, and_query, or_query, not_query, simple_query}
use ayd.Query.Ast.{field_query, nil, cons}
use ayd.Query.Optimize.{optimize, ◌>>=◌}

-- `token`: the type, with its flag, key and value where it has them.
pub data Token (m : Matchers) : Type 0 where
  lparen rparen or_token not_token : Token m
  simple_keyword : Bool → m.ValueMatcher → Token m
  field_keyword : Bool → m.StringMatcher → m.ValueMatcher → Token m

-- A `Query` that is being built: a pointer to an `And` or to an `Or`, or another node.
pub data Node (m : Matchers) : Type 0 where
  and_at or_at : ℕ → Node m
  not_node : Node m → Node m
  simple_node : m.ValueMatcher → Node m
  field_node : m.StringMatcher → m.ValueMatcher → Node m

pub record AndCell (m : Matchers) : Type 0 where
  pub queries : List (Node m)
  pub paren : Bool

-- The variables of `ParseQuery`. The stack has its top first.
pub record Parser (m : Matchers) : Type 0 where
  pub ands : ℕ → AndCell m
  pub ors : ℕ → List (Node m)
  pub next : ℕ
  pub stack : List ℕ
  pub or_mode : Bool
  pub not_mode : Bool

unfoldable pub write : {A : Type 0} → (ℕ → A) → ℕ → A → ℕ → A
write cells p v q = if q == p then v else cells q

module _ {m : Matchers} where
  -- The cell with the queries in place of its own.
  abbrev pub with_queries : AndCell m → List (Node m) → AndCell m
  with_queries c qs = record { queries = qs; paren = c.paren }

  -- `stack[len(stack)-1].Queries = ...`
  unfoldable pub set_queries : Parser m → ℕ → List (Node m) → Parser m
  unfolding write
  set_queries p a qs = record p { ands = write p.ands a (with_queries (p.ands a) qs) }

  unfoldable pub reset : Parser m → Parser m
  reset p = record p { or_mode = false; not_mode = false }

  -- The branch of `orMode`.
  unfoldable pub push_or : Parser m → ℕ → Node m → Parser m
  unfolding set_queries
  push_or p top q =
      let cells = write p.ands p.next (record { queries = (p.ands top).queries; paren = false }) in
      set_queries
        (record p {
          ands = cells;
          ors = write p.ors (suc p.next) (and_at p.next ∷ q ∷ []);
          next = p.next + 2;
        })
        top (or_at (suc p.next) ∷ [])

  -- The branch in which the last query is the `Or` at `o`, whose last query is given.
  unfoldable pub push_last : Parser m → ℕ → Option (Node m) → Node m → Parser m
  unfolding set_queries
  push_last p o (some (and_at a)) q = set_queries p a ((p.ands a).queries ++ q ∷ [])
  push_last p o (some last) q = record p {
    ands = write p.ands p.next (record { queries = last ∷ q ∷ []; paren = false });
    ors = write p.ors o (drop_last (p.ors o) ++ and_at p.next ∷ []);
    next = suc p.next;
  }
  push_last p o none q = p

  -- The branch without `orMode`, on the last query of the top. It returns early behind an `Or`.
  unfoldable pub push_and : Parser m → ℕ → Option (Node m) → Node m → Parser m
  unfolding push_last reset
  push_and p top (some (or_at o)) q = push_last p o (get_last? (p.ors o)) q
  push_and p top last q = reset (set_queries p top ((p.ands top).queries ++ q ∷ []))

  -- `pushQuery` with the query, negated where it is to be, and the stack, which is never empty.
  unfoldable pub push_on : Parser m → Node m → List ℕ → Parser m
  unfolding push_or push_and reset
  push_on p q [] = p
  push_on p q (top ∷ below) =
      if p.or_mode
      then reset (push_or p top q)
      else push_and p top (get_last? (p.ands top).queries) q

  -- `pushQuery`
  unfoldable pub push_query : Parser m → Node m → Parser m
  unfolding push_on
  push_query p q = push_on p (if p.not_mode then not_node q else q) p.stack

  abbrev pub close_paren : Parser m → List ℕ → Parser m
  close_paren p [] = p
  close_paren p (bottom ∷ []) = record p {
    ands = write p.ands p.next (record { queries = and_at bottom ∷ []; paren = true });
    next = suc p.next;
    stack = p.next ∷ [];
  }
  close_paren p (top ∷ below ∷ rest) = record p { stack = below ∷ rest }

  abbrev pub open_paren : Parser m → Parser m
  unfolding push_query
  open_paren p =
      let cells = write p.ands p.next (record { queries = []; paren = true }) in
      let p' = push_query (record p { ands = cells; next = suc p.next }) (and_at p.next) in
      record p' { stack = p.next ∷ p'.stack }

  abbrev pub negated : Bool → Node m → Node m
  negated negative q = if negative then not_node q else q

  -- The `switch` of the loop.
  unfoldable pub feed : Parser m → Token m → Parser m
  unfolding open_paren write
  feed p lparen = open_paren p
  feed p rparen = reset (close_paren p p.stack)
  feed p or_token = record p { or_mode = true; not_mode = false }
  feed p not_token = record p { not_mode = not p.not_mode }
  feed p (simple_keyword negative v) = push_query p (negated negative (simple_node v))
  feed p (field_keyword negative k v) = push_query p (negated negative (field_node k v))

  unfoldable pub feed_all : Parser m → List (Token m) → Parser m
  unfolding feed
  feed_all p [] = p
  feed_all p (t ∷ ts) = feed_all (feed p t) ts

  abbrev pub new_parser : Parser m
  new_parser = record {
    ands = λ a. record { queries = []; paren = true };
    ors = λ a. [];
    next = 1;
    stack = 0 ∷ [];
    or_mode = false;
    not_mode = false;
  }

  -- The query that a node stands for in the end; `none` where the fuel runs out.
  unfoldable mutual
    pub read : ℕ → Parser m → Node m → Option (Query m)
    read zero p q = none
    read (suc f) p (and_at a) = do
      qs ← read_all f p (p.ands a).queries
      some (and_query qs (p.ands a).paren)
    read (suc f) p (or_at o) = do qs ← read_all f p (p.ors o); some (or_query qs)
    read (suc f) p (not_node q) = do q' ← read f p q; some (not_query q')
    read (suc f) p (simple_node v) = some (simple_query v)
    read (suc f) p (field_node k v) = some (field_query k v)

    pub read_all : ℕ → Parser m → List (Node m) → Option (Queries m)
    read_all zero p qs = none
    read_all (suc f) p [] = some nil
    read_all (suc f) p (q ∷ qs) = do q' ← read f p q; qs' ← read_all f p qs; some (cons q' qs')

  -- `stack[0]`
  abbrev pub bottom : List ℕ → Node m
  bottom [] = and_at 0
  bottom (a ∷ []) = and_at a
  bottom (a ∷ b ∷ rest) = bottom (b ∷ rest)

  -- `ParseQuery`, with the fuel for reading the result.
  unfoldable pub parse_query : ℕ → List (Token m) → Option (Query m)
  unfolding feed_all read optimize
  parse_query fuel ts = do
    q ← read fuel (feed_all new_parser ts) (bottom (feed_all new_parser ts).stack)
    optimize q
