-- ===== src/Query/Parse/Conjunction.antt =====
-- internal/query/query.go: a query without OR and parentheses is the conjunction of its terms.
use ayd.Common.{
  ℕ, zero, suc, ◌+◌, ◌≤◌, Bool, true, false, not, ◌≡◌, refl, sym, ap, ◌∙◌, List, [], ◌∷◌, ◌++◌,
  append-nil, append_assoc, Option, none, some, length, if◌then◌else◌, arith,
}
use mathlib.Core.Path.{subst}
use ayd.Api.Record.{Record}
use ayd.Query.Ast.{Matchers, Query, and_query, cons, match}
use ayd.Query.Optimize.{optimize, ◌>>=◌}
use ayd.Query.Optimize.Normal.{Improves}
use ayd.Query.Optimize.Sound.{optimize-Improves}
use ayd.Query.Parse.{
  Node, Parser, not_node, not_token, reset, push_query, feed, feed_all, negated, new_parser, bottom,
  read, read_all, parse_query,
}
use ayd.Query.Parse.Negation.{ends_with_or}
use ayd.Query.Parse.Flat.{
  Keyword, Literal, simple, field, keyword_token, tokens_of, keyword_node, node_of, query_of,
  nodes_of, queries_of, all_match, match_and-queries_of, IsFlat, push_query-plain, pushed-IsFlat,
}

module _ {m : Matchers} where
  -- Flat, with no NOT waiting.
  abbrev Ready : Parser m → List (Node m) → Type 0
  Ready p qs = IsFlat p qs × (p.not_mode ≡ false)

  after_not : Bool → Parser m → Parser m
  after_not n p = if n then feed p not_token else p

  after_not-IsFlat :
      (n : Bool) (p : Parser m) (qs : List (Node m))
      → Ready p qs
      → IsFlat (after_not n p) qs × ((after_not n p).not_mode ≡ n)
  unfolding after_not feed
  after_not-IsFlat true p qs (flat, e) = (
    record {
      one_level = flat.one_level;
      no_or = flat.no_or;
      queries = flat.queries;
      plain = flat.plain;
    },
    ap not e,
  )
  after_not-IsFlat false p qs (flat, e) = (flat, e)

  feed-keyword :
      (p : Parser m) (negative : Bool) (k : Keyword m)
      → feed p (keyword_token negative k) ≡ push_query p (negated negative (keyword_node k))
  unfolding feed
  feed-keyword p negative (simple v) = refl
  feed-keyword p negative (field k v) = refl

  node-plain :
      (n negative : Bool) (k : Keyword m)
      → ends_with_or (
          some (
            if n
            then not_node (negated negative (keyword_node k))
            else negated negative (keyword_node k)))
        ≡ false
  node-plain true negative k = refl
  node-plain false true k = refl
  node-plain false false (simple v) = refl
  node-plain false false (field k v) = refl

  feed-Ready :
      (n negative : Bool) (k : Keyword m) (p : Parser m) (qs : List (Node m))
      → Ready p qs
      → Ready (feed (after_not n p) (keyword_token negative k)) (
          qs
          ++ (if n
              then not_node (negated negative (keyword_node k))
              else negated negative (keyword_node k))
            ∷ [])
  unfolding reset
  feed-Ready n negative k p qs ready =
      let (flat, mode) = after_not-IsFlat n p qs ready in
      let q = negated negative (keyword_node k) in
      let end =
        feed-keyword (after_not n p) negative k
        ∙ push_query-plain (after_not n p) qs n q flat mode in
      (
        subst (λ p. IsFlat p (qs ++ (if n then not_node q else q) ∷ [])) (sym end)
            (pushed-IsFlat (after_not n p) qs (if n then not_node q else q) flat
              (node-plain n negative k)),
        ap (λ p. p.not_mode) end,
      )

  feed_all-literal :
      (l : Literal m) (ls : List (Literal m)) (p : Parser m)
      → feed_all p (tokens_of (l ∷ ls))
        ≡ feed_all
            (feed (after_not l.after_not p) (keyword_token l.negative l.keyword))
            (tokens_of ls)
  unfolding feed_all after_not
  feed_all-literal l ls p = go l.after_not
    where
      go :
          (n : Bool)
          → feed_all p (
              if n
              then not_token ∷ keyword_token l.negative l.keyword ∷ tokens_of ls
              else keyword_token l.negative l.keyword ∷ tokens_of ls)
            ≡ feed_all
                (feed (if n then feed p not_token else p) (keyword_token l.negative l.keyword))
                (tokens_of ls)
      go true = refl
      go false = refl

  feed_all-IsFlat :
      (ls : List (Literal m)) (p : Parser m) (qs : List (Node m))
      → Ready p qs
      → IsFlat (feed_all p (tokens_of ls)) (qs ++ nodes_of ls)
  unfolding feed_all
  feed_all-IsFlat [] p qs (flat, e) = subst (IsFlat p) (sym (append-nil qs)) flat
  feed_all-IsFlat (l ∷ ls) p qs ready =
      let p' = feed (after_not l.after_not p) (keyword_token l.negative l.keyword) in
      let rest =
        feed_all-IsFlat ls p' (qs ++ node_of l ∷ [])
          (feed-Ready l.after_not l.negative l.keyword p qs ready) in
      subst (λ x. IsFlat x (qs ++ nodes_of (l ∷ ls))) (sym (feed_all-literal l ls p))
        (subst (IsFlat (feed_all p' (tokens_of ls)))
          (append_assoc qs (node_of l ∷ []) (nodes_of ls)) rest)

  read-literal :
      (f : ℕ) (p : Parser m) (l : Literal m) → 3 ≤ f → read f p (node_of l) ≡ some (query_of l)
  unfolding read
  read-literal zero p l h = absurd (omega arith)
  read-literal (suc zero) p l h = absurd (omega arith)
  read-literal (suc (suc zero)) p l h = absurd (omega arith)
  read-literal (suc (suc (suc f))) p l h = go l.after_not l.negative l.keyword
    where
      go :
          (n negative : Bool) (k : Keyword m)
          → read
              (suc (suc (suc f)))
              p
              (node_of (record { after_not = n; negative = negative; keyword = k }))
            ≡ some (query_of (record { after_not = n; negative = negative; keyword = k }))
      go true true (simple v) = refl
      go true true (field k v) = refl
      go true false (simple v) = refl
      go true false (field k v) = refl
      go false true (simple v) = refl
      go false true (field k v) = refl
      go false false (simple v) = refl
      go false false (field k v) = refl

  read_all-literals :
      (f : ℕ) (p : Parser m) (ls : List (Literal m))
      → length ls + 4 ≤ f
      → read_all f p (nodes_of ls) ≡ some (queries_of ls)
  unfolding read
  read_all-literals zero p ls h = absurd (omega arith)
  read_all-literals (suc f) p [] h = refl
  read_all-literals (suc f) p (l ∷ ls) h =
      ap (λ o. o >>= λ q'. (read_all f p (nodes_of ls)) >>= λ qs'. some (cons q' qs'))
        (read-literal f p l (omega arith))
      ∙ ap (λ o. o >>= λ qs'. some (cons (query_of l) qs')) (read_all-literals f p ls (omega arith))

  read-flat :
      (f : ℕ) (p : Parser m) (ls : List (Literal m))
      → IsFlat p (nodes_of ls)
      → length ls + 5 ≤ f
      → read f p (bottom p.stack) ≡ some (and_query (queries_of ls) (p.ands 0).paren)
  unfolding read
  read-flat zero p ls flat h = absurd (omega arith)
  read-flat (suc f) p ls flat h =
      ap (λ stack. read (suc f) p (bottom stack)) flat.one_level
      ∙ ap (λ qs. read_all f p qs >>= λ qs'. some (and_query qs' (p.ands 0).paren)) flat.queries
      ∙ ap (λ o. o >>= λ qs'. some (and_query qs' (p.ands 0).paren))
          (read_all-literals f p ls (omega arith))

  -- The parser has answered, with a query that matches as the specification says.
  abbrev pub Answers : Option (Query m) → (Record m.Any → Bool) → Type 0
  Answers none spec = ⊥
  Answers (some q) spec = (r : Record m.Any) → match m q r ≡ spec r

  Answers-Improves :
      (q : Query m) (o : Option (Query m)) (spec : Record m.Any → Bool)
      → Improves q o
      → ((r : Record m.Any) → match m q r ≡ spec r)
      → Answers o spec
  Answers-Improves q none spec h same = h
  Answers-Improves q (some q') spec h same = λ r. h.0 r ∙ same r

  match-and_query :
      (ls : List (Literal m)) (paren : Bool) (r : Record m.Any)
      → match m (and_query (queries_of ls) paren) r ≡ all_match ls r
  unfolding match
  match-and_query ls paren r = match_and-queries_of ls r

  new_parser-Ready : Ready new_parser []
  new_parser-Ready = (record { one_level = refl; no_or = refl; queries = refl; plain = refl }, refl)

  -- A query of keywords without OR and parentheses is read, with fuel for five steps more than
  -- keywords, and the result matches a record exactly where the record matches each keyword,
  -- negated by its token and by the NOT before it.
  pub parse_query_conjunction :
      (ls : List (Literal m)) (fuel : ℕ)
      → length ls + 5 ≤ fuel
      → Answers (parse_query fuel (tokens_of ls)) (all_match ls)
  unfolding parse_query
  parse_query_conjunction ls fuel h =
      let p = feed_all new_parser (tokens_of ls) in
      let q = and_query (queries_of ls) (p.ands 0).paren in
      let read_back = read-flat fuel p ls (feed_all-IsFlat ls new_parser [] new_parser-Ready) h in
      subst (λ o. Answers (o >>= optimize) (all_match ls)) (sym read_back)
        (Answers-Improves q (optimize q) (all_match ls) (optimize-Improves q)
          (match-and_query ls (p.ands 0).paren))
