-- ===== src/Query/Tokens/Scan.antt =====
-- internal/query/tokenizer.go: the token of a keyword, and `Scan`.
use ayd.Common.{
  ℕ, zero, suc, ◌+◌, Bool, true, false, not, ◌&&◌, ◌||◌, List, [], ◌∷◌, ◌++◌, Option, none, some,
  Bytes, codes, length, drop, leb, ◌==◌, get_last?, drop_last, if◌then◌else◌,
}
use ayd.Query.Ast.{Matchers}
use ayd.Query.Parse.{Token, lparen, rparen, or_token, not_token, simple_keyword, field_keyword}
use ayd.Query.Tokens.{
  Makers, KeywordToken, KeywordScan, literal, operator, unmarked, op_not_equal, is_nil, close_buf,
  scan_bytes, new_scan, is_space,
}

abbrev values_of : List KeywordToken → List (Option Bytes)
values_of [] = []
values_of (literal strings ∷ ts) = strings ++ values_of ts
values_of (operator op text ∷ ts) = some text ∷ values_of ts

-- `tokens[i].Type == operatorToken && (tokens[i].Op == opEqual || tokens[i].Op == opNotEqual)`
abbrev equality_of : KeywordToken → Option ℕ
equality_of (literal strings) = none
equality_of (operator op text) = if op == 1 || op == op_not_equal then some op else none

-- The tokens before the first equality, its operator, and the tokens after it.
pub record Equality : Type 0 where
  pub before : List KeywordToken
  pub op : ℕ
  pub after : List KeywordToken

abbrev found_at : KeywordToken → List KeywordToken → Option ℕ → Option Equality → Option Equality
found_at t ts (some op) rest = some (record { before = []; op = op; after = ts })
found_at t ts none none = none
found_at t ts none (some e) = some (record { before = t ∷ e.before; op = e.op; after = e.after })

unfoldable pub find_equality : List KeywordToken → Option Equality
find_equality [] = none
find_equality (t ∷ ts) = found_at t ts (equality_of t) (find_equality ts)

-- `tokens[len(tokens)-1].Type == operatorToken`
abbrev is_operator : Option KeywordToken → Bool
is_operator (some (operator op text)) = true
is_operator t = false

-- The field `Op`, which is zero on a literal.
abbrev op_of : Option KeywordToken → ℕ
op_of (some (operator op text)) = op
op_of t = 0

abbrev values_of? : Option KeywordToken → List (Option Bytes)
values_of? none = []
values_of? (some t) = values_of (t ∷ [])

-- The variables `left`, `op` and `right`.
pub record Parts (m : Matchers) : Type 0 where
  pub left : List (Option Bytes)
  pub op : ℕ
  pub right : m.ValueMatcher

module _ {m : Matchers} (makers : Makers m) where
  open makers use {any_value, new_value, new_ordering, new_string}

  abbrev ordered : Option m.ValueMatcher → List (Option Bytes) → ℕ → List (Option Bytes) → Parts m
  ordered (some right) left op all = record { left = left; op = op; right = right }
  ordered none left op all = record { left = []; op = 0; right = new_value all 0 }

  -- The part under `if op == 0`.
  unfoldable pub order_parts : List KeywordToken → Bool → Parts m
  order_parts tokens has_op =
      let last = get_last? tokens in
      let front = drop_last tokens in
      if not has_op || is_operator last
      then record { left = []; op = 0; right = new_value (values_of tokens) 0 }
      else (let op = op_of (get_last? front) in
          ordered (new_ordering (values_of? last) (unmarked op)) (values_of (drop_last front)) op
            (values_of tokens))

  abbrev equal_parts : Option Equality → Parts m → Parts m
  equal_parts none other = other
  equal_parts (some e) other = record {
    left = values_of e.before;
    op = e.op;
    right = new_value (values_of e.after) (unmarked e.op);
  }

  unfoldable pub parts_of : List KeywordToken → Bool → Parts m
  unfolding order_parts find_equality
  parts_of tokens has_op =
      equal_parts (if leb 2 (length tokens) then find_equality tokens else none)
        (order_parts tokens has_op)

  -- The end of `scanKeyword`.
  unfoldable pub keyword_token : KeywordScan → Token m
  unfolding parts_of
  keyword_token s =
      let parts = parts_of s.tokens s.has_op in
      if is_nil s.tokens
      then simple_keyword false any_value
      else if not (is_nil parts.left) || (not (parts.op == 0) && s.start_with_quote)
      then field_keyword (parts.op == op_not_equal) (new_string parts.left) parts.right
      else simple_keyword (parts.op == op_not_equal) parts.right

  -- `tokenizer`
  pub record Tokenizer : Type 0 where
    pub remain : Bytes
    pub buf : Token m

  -- `scanKeyword`
  unfoldable pub scan_keyword : Bytes → Tokenizer
  unfolding scan_bytes keyword_token close_buf
  scan_keyword remain =
      let s = scan_bytes false new_scan remain in
      record { remain = drop s.i remain; buf = keyword_token (close_buf s) }

-- `toLowerByte`
unfoldable pub to_lower_byte : ℕ → ℕ
to_lower_byte b = if leb b'A' b && leb b b'Z' then b + 32 else b

-- The bytes are those of the word in any case, and one that ends a word follows.
unfoldable pub check : Bytes → Bytes → Bool
unfolding to_lower_byte
check [] s = false
check (c ∷ remain) [] = c == b' ' || c == b'(' || c == b')'
check (c ∷ remain) (x ∷ s) = to_lower_byte c == x && check remain s

-- The loop over spaces.
unfoldable pub strip : Bytes → Bytes
unfolding is_space
strip [] = []
strip (c ∷ remain) = if is_space c then strip remain else c ∷ remain

module _ {m : Matchers} (makers : Makers m) where
  -- What `Scan` returns with the tokenizer after it; `none` where the fuel runs out.
  abbrev pub Scanned : Type 0
  Scanned = Option (Bool × Tokenizer makers)

  -- The result of the inner `Scan` is not used.
  abbrev pub ended : Scanned → Scanned
  ended none = none
  ended (some (more, t)) = some (true, t)

  abbrev found : Bytes → Token m → Scanned
  found remain buf = some (true, record { remain = remain; buf = buf })

  -- The `switch` of `Scan`; the last argument is the call of `Scan` behind `and`.
  unfoldable pub scan_token : ℕ → Bytes → (Bytes → Scanned) → Scanned
  unfolding check scan_keyword
  scan_token c rest again =
      let low = to_lower_byte c in
      if low == b'('
      then found rest lparen
      else if low == b')'
      then found rest rparen
      else if check (c ∷ rest) (codes "and")
      then ended (again (drop 2 rest))
      else if check (c ∷ rest) (codes "or")
      then found (drop 1 rest) or_token
      else if low == b'-' || low == b'!'
      then found rest not_token
      else if check (c ∷ rest) (codes "not")
      then found (drop 2 rest) not_token
      else some (true, scan_keyword makers (c ∷ rest))

  -- The rest of `Scan` behind the loop over spaces.
  unfoldable pub scan_stripped : Bytes → Token m → (Bytes → Scanned) → Scanned
  unfolding scan_token
  scan_stripped [] buf again = some (false, record { remain = []; buf = buf })
  scan_stripped (c ∷ rest) buf again = scan_token c rest again

  -- `Scan`
  unfoldable pub scan : ℕ → Bytes → Token m → Scanned
  unfolding strip scan_stripped
  scan zero remain buf = none
  scan (suc f) remain buf = scan_stripped (strip remain) buf (λ remain. scan f remain buf)

  abbrev pub cons_token : Token m → Option (List (Token m)) → Option (List (Token m))
  cons_token t none = none
  cons_token t (some ts) = some (t ∷ ts)

  abbrev pub and_more :
      Scanned → (Tokenizer makers → Option (List (Token m))) → Option (List (Token m))
  and_more none more = none
  and_more (some (false, t)) more = some []
  and_more (some (true, t)) more = cons_token t.buf (more t)

  -- The loop `for tok.Scan()` of `ParseQuery`: its tokens in order.
  unfoldable pub scan_all : ℕ → Bytes → Token m → Option (List (Token m))
  unfolding scan
  scan_all zero remain buf = none
  scan_all (suc f) remain buf =
      and_more (scan (length remain + 1) remain buf) (λ t. scan_all f t.remain t.buf)

  -- The tokens of a query. The first token is the zero one.
  unfoldable pub tokens : Bytes → Option (List (Token m))
  unfolding scan_all
  tokens query = scan_all (length query + 1) query lparen
