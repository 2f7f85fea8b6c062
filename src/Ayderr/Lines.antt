-- ===== src/Ayderr/Lines.antt =====
-- internal/ayderr/list.go: the lines of the text of a list of errors.
use ayd.Common.{
  false, ◌≡◌, refl, sym, ap, ◌∙◌, List, [], ◌∷◌, ◌++◌, append-nil, Bytes, ◌==◌, Bool-cases, inl,
  inr, All, All-append, drop,
}
use mathlib.Core.Path.{subst}
use ayd.Ayderr.{
  ErrorValue, Errors, error_list, nil, cons, extend, split_lines, join_lines, indent_all,
  error_text, child_lines,
}

-- One line: no byte of it ends a line.
abbrev IsLine : Bytes → Type 0
IsLine = All (λ c. (c == b'\n') ≡ false)

abbrev Split : Bytes → Type 0
Split s = (l : Bytes) × (ls : List Bytes) × (split_lines s ≡ l ∷ ls) × IsLine l × All IsLine ls

split : (s : Bytes) → Split s
unfolding split_lines
split [] = ([], [], refl, tt, tt)
split (c ∷ s) =
    let (l, ls, e, one, more) = split s in
    elim (Bool-cases (c == b'\n')) [
      | inl end ↦ rw end ([], l ∷ ls, ap (λ x. [] ∷ x) e, tt, (one, more))
      | inr inside ↦ rw inside (c ∷ l, ls, ap (extend c) e, (inside, one), more)
    ]

split_lines-append : (s t : Bytes) → split_lines (s ++ b'\n' ∷ t) ≡ split_lines s ++ split_lines t
unfolding split_lines
split_lines-append [] t = refl
split_lines-append (c ∷ s) t =
    let (l, ls, e, _, _) = split s in
    elim (Bool-cases (c == b'\n')) [
      | inl end ↦ rw end (ap (λ x. [] ∷ x) (split_lines-append s t))
      | inr inside ↦ rw inside (
          ap (extend c) (split_lines-append s t ∙ ap (λ x. x ++ split_lines t) e)
          ∙ sym (ap (λ x. extend c x ++ split_lines t) e))
    ]

split_lines-line : (l : Bytes) → IsLine l → split_lines l ≡ l ∷ []
unfolding split_lines
split_lines-line [] h = refl
split_lines-line (c ∷ l) h = rw h.0 (ap (extend c) (split_lines-line l h.1))

-- Lines that are joined behind a text are the lines that are read back after those of the text.
split_lines-join_lines :
    (s : Bytes) (ls : List Bytes)
    → All IsLine ls
    → split_lines (join_lines (s ∷ ls)) ≡ split_lines s ++ ls
unfolding join_lines
split_lines-join_lines s [] h = sym (append-nil (split_lines s))
split_lines-join_lines s (l ∷ ls) h =
    split_lines-append s (join_lines (l ∷ ls))
    ∙ ap (λ x. split_lines s ++ x)
        (split_lines-join_lines l ls h.1 ∙ ap (λ x. x ++ ls) (split_lines-line l h.0))

indent_all-IsLine : (ls : List Bytes) → All IsLine ls → All IsLine (indent_all ls)
unfolding indent_all
indent_all-IsLine [] h = tt
indent_all-IsLine (l ∷ ls) h = ((refl, (refl, h.0)), indent_all-IsLine ls h.1)

split_lines-IsLine : (s : Bytes) → All IsLine (split_lines s)
split_lines-IsLine s = let (l, ls, e, one, more) = split s in subst (All IsLine) (sym e) (one, more)

child_lines-IsLine : (es : Errors) → All IsLine (child_lines es)
unfolding child_lines
child_lines-IsLine nil = tt
child_lines-IsLine (cons e es) =
    All-append IsLine (indent_all (split_lines (error_text e))) (child_lines es)
      (indent_all-IsLine (split_lines (error_text e)) (split_lines-IsLine (error_text e)))
      (child_lines-IsLine es)

-- Two spaces stand first.
abbrev Indented : Bytes → Type 0
Indented (c ∷ d ∷ s) = (c ≡ b' ') × (d ≡ b' ')
Indented s = ⊥

-- The lines without their first two bytes.
abbrev pub unindented : List Bytes → List Bytes
unindented [] = []
unindented (l ∷ ls) = drop 2 l ∷ unindented ls

-- The lines of the texts of the errors, one error after the other.
pub lines_of_each : Errors → List Bytes
lines_of_each nil = []
lines_of_each (cons e es) = split_lines (error_text e) ++ lines_of_each es

-- A list of lines that is `ls` indented.
abbrev pub IsIndented : List Bytes → List Bytes → Type 0
IsIndented ks ls = All Indented ks × (unindented ks ≡ ls)

indent_all-IsIndented : (ls : List Bytes) → IsIndented (indent_all ls) ls
unfolding indent_all
indent_all-IsIndented [] = (tt, refl)
indent_all-IsIndented (l ∷ ls) =
    let (all, same) = indent_all-IsIndented ls in (((refl, refl), all), ap (λ x. l ∷ x) same)

unindented-append : (xs ys : List Bytes) → unindented (xs ++ ys) ≡ unindented xs ++ unindented ys
unindented-append [] ys = refl
unindented-append (x ∷ xs) ys = ap (λ z. drop 2 x ∷ z) (unindented-append xs ys)

child_lines-IsIndented : (es : Errors) → IsIndented (child_lines es) (lines_of_each es)
unfolding child_lines lines_of_each
child_lines-IsIndented nil = (tt, refl)
child_lines-IsIndented (cons e es) =
    let (one, same) = indent_all-IsIndented (split_lines (error_text e)) in
    let (more, rest) = child_lines-IsIndented es in
    let ks = indent_all (split_lines (error_text e)) in
    (
      All-append Indented ks (child_lines es) one more,
      unindented-append ks (child_lines es)
          ∙ ap (λ x. x ++ unindented (child_lines es)) same
          ∙ ap (λ x. split_lines (error_text e) ++ x) rest,
    )

-- The lines of the text of a list of errors are those of its heading, which is the text of the first
-- error and a colon, and then lines that begin with two spaces each. Without these spaces they are the
-- lines of the children's own texts, of all children and in their order, whatever the texts hold.
pub split_lines-error_text :
    (what : ErrorValue) (children : Errors)
    → (ks : List Bytes) × (split_lines (error_text (error_list what children))
        ≡ split_lines (error_text what ++ b':' ∷ []) ++ ks)
      × IsIndented ks (lines_of_each children)
unfolding error_text
split_lines-error_text what children = (
  child_lines children,
  split_lines-join_lines (error_text what ++ b':' ∷ []) (child_lines children)
      (child_lines-IsLine children),
  child_lines-IsIndented children,
)
