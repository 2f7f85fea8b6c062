-- ===== src/Tests/Tokens.antt =====
-- Runs of the tokenizer of queries.
use ayd.Common.{◌≡◌, refl, true, false, [], ◌∷◌, none, some, Bytes, codes}
use ayd.Query.Glob.{new_string_matcher}
use ayd.Query.Parse.{lparen, rparen, or_token, not_token, simple_keyword, field_keyword}
use ayd.Query.Tokens.{Makers}
use ayd.Query.Tokens.Scan.{tokens}
use ayd.Query.Tokens.Progress.{AtMost, tokens-AtMost}
use ayd.Tests.Matchers.{Condition, since, text, conditions}

abbrev makers : Makers conditions
makers = record {
  any_value = since 0;
  new_value = λ ss op. text (new_string_matcher ss);
  new_ordering = λ ss op. none;
  new_string = new_string_matcher;
}

abbrev exactly : Bytes → Condition
exactly s = text (new_string_matcher (some s ∷ []))

quoted_and_field :
    tokens makers (codes "status!=ok (-\"a b\" OR c)")
    ≡ some (
        field_keyword true (new_string_matcher (some (codes "status") ∷ [])) (exactly (codes "ok"))
        ∷ lparen
        ∷ not_token
        ∷ simple_keyword false (exactly (codes "a b"))
        ∷ or_token
        ∷ simple_keyword false (exactly (codes "c"))
        ∷ rparen
        ∷ [])
unfolding tokens
quoted_and_field = refl

-- An `and` with only a space behind it brings the token before it again.
trailing_and : tokens makers (codes "!and ") ≡ some (not_token ∷ not_token ∷ [])
unfolding tokens
trailing_and = refl

tokens-AtMost_example : AtMost makers 8 (tokens makers (codes "a OR (b)"))
tokens-AtMost_example = tokens-AtMost makers (codes "a OR (b)")
