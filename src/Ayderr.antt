-- ===== src/Ayderr.antt =====
-- internal/ayderr/list.go: lists of errors. Other errors are told apart by a number.
pub mod Lines
use ayd.Common.{
  ℕ, Bool, true, false, List, [], ◌∷◌, ◌++◌, Option, none, some, Bytes, codes, ◌==◌, if◌then◌else◌,
}

mutual
  -- An `error`: one of another type with its text, or a `List`.
  pub data ErrorValue : Type 0 where
    plain : ℕ → Bytes → ErrorValue
    error_list : ErrorValue → Errors → ErrorValue

  -- `[]error`
  pub data Errors : Type 0 where
    nil : Errors
    cons : ErrorValue → Errors → Errors

unfoldable pub extend : ℕ → List Bytes → List Bytes
extend c [] = (c ∷ []) ∷ []
extend c (l ∷ ls) = (c ∷ l) ∷ ls

-- `strings.Split(s, "\n")`
unfoldable pub split_lines : Bytes → List Bytes
unfolding extend
split_lines [] = [] ∷ []
split_lines (c ∷ s) = let rest = split_lines s in if c == b'\n' then [] ∷ rest else extend c rest

-- `strings.Join(ss, "\n")`
unfoldable pub join_lines : List Bytes → Bytes
join_lines [] = []
join_lines (l ∷ []) = l
join_lines (l ∷ k ∷ ls) = l ++ b'\n' ∷ join_lines (k ∷ ls)

-- `"  "+s` for each line.
unfoldable pub indent_all : List Bytes → List Bytes
indent_all [] = []
indent_all (l ∷ ls) = (b' ' ∷ b' ' ∷ l) ∷ indent_all ls

-- `Error`, with the loop of `List.Error` over the children.
unfoldable mutual
  unfolding split_lines join_lines indent_all

  pub error_text : ErrorValue → Bytes
  error_text (plain id text) = text
  error_text (error_list what children) =
      join_lines ((error_text what ++ b':' ∷ []) ∷ child_lines children)

  pub child_lines : Errors → List Bytes
  child_lines nil = []
  child_lines (cons e es) = indent_all (split_lines (error_text e)) ++ child_lines es

-- `==` with an error that is not a list.
abbrev same_error : ErrorValue → ℕ → Bool
same_error (plain id text) err = id == err
same_error (error_list what children) err = false

unfoldable pub is_child : Errors → ℕ → Bool
is_child nil err = false
is_child (cons e es) err = if same_error e err then true else is_child es err

-- `List.Is`
unfoldable pub is_error : ErrorValue → Errors → ℕ → Bool
unfolding is_child
is_error what children err = if same_error what err then true else is_child children err

-- `ListBuilder`
pub record ListBuilder : Type 0 where
  pub what : ErrorValue
  pub children : Errors

unfoldable pub append : Errors → Errors → Errors
append nil ys = ys
append (cons e es) ys = cons e (append es ys)

unfoldable pub push : ListBuilder → Errors → ListBuilder
unfolding append
push lb err = record lb { children = append lb.children err }

abbrev built : ErrorValue → Errors → Option ErrorValue
built what nil = none
built what children = some (error_list what children)

-- `Build`, with `none` for `nil`.
unfoldable pub build : ListBuilder → Option ErrorValue
build lb = built lb.what lb.children
