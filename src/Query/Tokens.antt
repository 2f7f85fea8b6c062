-- ===== src/Query/Tokens.antt =====
-- internal/query/tokenizer.go. The constructors of matchers are a parameter, `Makers`.
pub mod Keyword
pub mod Scan
pub mod Progress
use Prim.Native.Nat.{◌%◌}
use ayd.Common.{
  ℕ, zero, suc, ◌+◌, ◌-◌, Bool, true, false, not, ◌&&◌, ◌||◌, List, [], ◌∷◌, ◌++◌, Option, none,
  some, Bytes, bytes_eq, codes, length, take, drop, ltb, leb, ◌==◌, get_last?, drop_last,
  if◌then◌else◌,
}
use ayd.Query.Ast.{Matchers}
use ayd.Query.Parse.{Token, lparen, rparen, or_token, not_token, simple_keyword, field_keyword}

-- `anyValueMatcher{}`, `newValueMatcher`, `newOrderingValueMatcher` with `none` for its error, and
-- `newStringMatcher`. An operator is the number of its constant.
pub record Makers (m : Matchers) : Type 0 where
  pub any_value : m.ValueMatcher
  pub new_value : List (Option Bytes) → ℕ → m.ValueMatcher
  pub new_ordering : List (Option Bytes) → ℕ → Option m.ValueMatcher
  pub new_string : List (Option Bytes) → m.StringMatcher

abbrev op_not_equal : ℕ
op_not_equal = 9

-- `op & opNotMask`
abbrev unmarked : ℕ → ℕ
unmarked op = op % 8

-- `keywordToken`
pub data KeywordToken : Type 0 where
  literal : List (Option Bytes) → KeywordToken
  operator : ℕ → Bytes → KeywordToken

-- The variables of `scanKeyword`.
pub record KeywordScan : Type 0 where
  pub tokens : List KeywordToken
  pub buf : Bytes
  pub strings : List (Option Bytes)
  pub escape : Bool
  pub quote : Bool
  pub has_op : Bool
  pub start_with_quote : Bool
  pub i : ℕ

abbrev is_nil {ℓ} : {A : Type ℓ} → List A → Bool
is_nil [] = true
is_nil (x ∷ xs) = false

-- `closeBuf`
unfoldable pub close_buf : KeywordScan → KeywordScan
close_buf s =
    let strings = if is_nil s.buf then s.strings else s.strings ++ some s.buf ∷ [] in
    if is_nil strings
    then record s { buf = []; strings = [] }
    else record s { tokens = s.tokens ++ literal strings ∷ []; buf = []; strings = [] }

abbrev write_byte : KeywordScan → ℕ → KeywordScan
write_byte s c = record s { buf = s.buf ++ c ∷ [] }

-- The byte that an escaped byte stands for.
unfoldable pub unescape : ℕ → ℕ
unescape c =
    if c == b'n' then b'\n' else if c == b't' then b'\t' else if c == b'r' then b'\r' else c

unfoldable pub push_operator : KeywordScan → ℕ → Bytes → KeywordScan
unfolding close_buf
push_operator s op text =
    let s' = close_buf s in record s' { tokens = s'.tokens ++ operator op text ∷ []; has_op = true }

-- How a turn of the loop ends: at the next byte, at the one after it, or with the loop.
pub data Turn : Type 0 where
  next skip stop : KeywordScan → Turn

unfoldable pub is_not_equal : ℕ → Bytes → Bool
is_not_equal c [] = false
is_not_equal c (d ∷ rest) = (c == b'!' && d == b'=') || (c == b'<' && d == b'>')

unfoldable pub starts_with_equal : Bytes → Bool
starts_with_equal [] = false
starts_with_equal (d ∷ rest) = d == b'='

abbrev single_operator : ℕ → ℕ
single_operator c = if c == b'<' then 2 else if c == b'>' then 4 else 1

-- The branch of `<`, `>` and `=`: with `=` after it, `opCode |= opEqual`.
unfoldable pub scan_operator : KeywordScan → ℕ → Bytes → Turn
unfolding push_operator starts_with_equal
scan_operator s c rest =
    let op = single_operator c in
    if starts_with_equal rest
    then skip (push_operator s (if op == 1 then 1 else op + 1) (c ∷ b'=' ∷ []))
    else next (push_operator s op (c ∷ []))

unfoldable pub is_space : ℕ → Bool
is_space c = c == b' ' || c == b'\t' || c == b'\n'

unfoldable pub ends_keyword : ℕ → Bool
unfolding is_space
ends_keyword c = is_space c || c == b'(' || c == b')'

-- The body of the loop, on the byte at `i` and those after it.
unfoldable pub turn : KeywordScan → ℕ → Bytes → Turn
unfolding unescape is_not_equal scan_operator ends_keyword
turn s c rest =
    if s.escape
    then next (record (write_byte s (unescape c)) { escape = false })
    else if c == b'\\'
    then next (record s { escape = true })
    else if c == b'"'
    then next (record s { quote = not s.quote; start_with_quote = s.start_with_quote || s.i == 0 })
    else if s.quote
    then next (write_byte s c)
    else if is_not_equal c rest
    then skip (push_operator s op_not_equal (take 2 (c ∷ rest)))
    else if c == b'<' || c == b'>' || c == b'='
    then scan_operator s c rest
    else if c == b'*'
    then (let s' = close_buf s in next (record s' { strings = s'.strings ++ none ∷ [] }))
    else if ends_keyword c
    then stop s
    else next (write_byte s c)

abbrev pub follow : Turn → (Bool → KeywordScan → KeywordScan) → KeywordScan
follow (next s) loop = loop false (record s { i = s.i + 1 })
follow (skip s) loop = loop true (record s { i = s.i + 1 })
follow (stop s) loop = s

-- The loop; the flag tells that a byte is passed over by `i++`.
unfoldable pub scan_bytes : Bool → KeywordScan → Bytes → KeywordScan
unfolding turn
scan_bytes skipped s [] = s
scan_bytes true s (c ∷ rest) = scan_bytes false (record s { i = s.i + 1 }) rest
scan_bytes false s (c ∷ rest) = follow (turn s c rest) (λ skipped s. scan_bytes skipped s rest)

abbrev pub new_scan : KeywordScan
new_scan = record {
  tokens = [];
  buf = [];
  strings = [];
  escape = false;
  quote = false;
  has_op = false;
  start_with_quote = false;
  i = 0;
}
