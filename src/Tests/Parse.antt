-- ===== src/Tests/Parse.antt =====
-- Runs of `ParseQuery`.
use ayd.Common.{arith, ◌≡◌, refl, true, false, not, ◌&&◌, List, [], ◌∷◌, some, codes, get_last?}
use ayd.Query.Ast.{and_query, or_query, simple_query, nil, cons}
use ayd.Query.Optimize.{depth, join_and, join_or}
use ayd.Query.Glob.{exact}
use ayd.Query.Parse.{
  Token, Parser, lparen, rparen, or_token, not_token, simple_keyword, simple_node, feed_all,
  new_parser, push_query, parse_query,
}
use ayd.Query.Parse.Negation.{ends_with_or, not_mode-push_query}
use ayd.Query.Parse.Flat.{Literal, simple, tokens_of, all_match}
use ayd.Query.Parse.Conjunction.{Answers, parse_query_conjunction}
use ayd.Tests.Matchers.{Condition, text, conditions}

abbrev a : Condition
a = text (exact (codes "a"))

abbrev b : Condition
b = text (exact (codes "b"))

abbrev c : Condition
c = text (exact (codes "c"))

abbrev d : Condition
d = text (exact (codes "d"))

abbrev term : Condition → Token conditions
term v = simple_keyword false v

-- `a (b OR c)`
parentheses :
    parse_query 20 (term a ∷ lparen ∷ term b ∷ or_token ∷ term c ∷ rparen ∷ [])
    ≡ some (
        and_query
          (cons
            (simple_query a)
            (cons (or_query (cons (simple_query b) (cons (simple_query c) nil))) nil))
          true)
unfolding parse_query depth join_and join_or
parentheses = refl

-- `a OR b NOT c d` is read as `a OR b NOT c NOT d`.
negation_leaks :
    parse_query 20 (term a ∷ or_token ∷ term b ∷ not_token ∷ term c ∷ term d ∷ [])
    ≡ parse_query 20
        (term a ∷ or_token ∷ term b ∷ not_token ∷ term c ∷ not_token ∷ not_token ∷ term d ∷ [])
unfolding parse_query depth join_and join_or
negation_leaks = refl

-- `a OR b NOT`
unfoldable behind_or : Parser conditions
unfolding feed_all
behind_or = feed_all new_parser (term a ∷ or_token ∷ term b ∷ not_token ∷ [])

one_level : behind_or.stack ≡ 0 ∷ []
unfolding behind_or feed_all
one_level = refl

not_mode-push_query_example : (push_query behind_or (simple_node c)).not_mode ≡ (
    behind_or.not_mode
    && (not behind_or.or_mode && ends_with_or (get_last? (behind_or.ands 0).queries)))
not_mode-push_query_example = not_mode-push_query behind_or 0 [] (simple_node c) one_level

-- `a NOT b`
abbrev literals : List (Literal conditions)
literals =
    record { after_not = false; negative = false; keyword = simple a }
    ∷ record { after_not = true; negative = false; keyword = simple b }
    ∷ []

parse_query_conjunction_example : Answers (parse_query 9 (tokens_of literals)) (all_match literals)
parse_query_conjunction_example = parse_query_conjunction literals 9 (omega arith)
