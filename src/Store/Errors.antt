-- ===== src/Store/Errors.antt =====
-- internal/store/store.go: the health of the store, and the errors that it reports.
use ayd.Common.{
  ◌-◌, ◌≤◌, Bool, true, false, ◌≡◌, sym, ap, ◌∙◌, List, [], ◌∷◌, ◌++◌, append_assoc, Bytes, length,
  length-append, length-drop, drop, drop-append_le, append-nil, drop-drop, ltb, if◌then◌else◌,
  Bool-cases, inl, inr, arith, tests,
}
use mathlib.Core.Path.{subst}

pub record Health : Type 0 where
  pub healthy : Bool
  pub errors : List Bytes

unfoldable pub set_healthy : Health → Health
set_healthy s = record s { healthy = true }

unfoldable pub trim_errors : List Bytes → List Bytes
trim_errors errors = if ltb 10 (length errors) then drop 1 errors else errors

-- `addError`; the message has the time and a tab before it.
unfoldable pub add_error : Health → Bytes → Health
unfolding trim_errors
add_error s message = record { healthy = false; errors = trim_errors (s.errors ++ message ∷ []) }

abbrev pub add_errors : Health → List Bytes → Health
add_errors s [] = s
add_errors s (m ∷ ms) = add_errors (add_error s m) ms

abbrev pub last_ten : List Bytes → List Bytes
last_ten xs = drop (length xs - 10) xs

trim_errors-last_ten : (xs : List Bytes) → length xs ≤ 11 → trim_errors xs ≡ last_ten xs
unfolding trim_errors
trim_errors-last_ten xs h = elim (Bool-cases (ltb 10 (length xs))) [
  | inl long ↦ let one : length xs - 10 ≡ 1 = omega tests in rw long (ap (λ n. drop n xs) (sym one))
  | inr short ↦
      let zero : length xs - 10 ≡ 0 = omega tests in rw short (ap (λ n. drop n xs) (sym zero))
]

last_ten-last_ten : (xs ys : List Bytes) → last_ten (last_ten xs ++ ys) ≡ last_ten (xs ++ ys)
last_ten-last_ten xs ys =
    let n = length xs - 10 in
    let k = length (drop n xs ++ ys) - 10 in
    ap (drop k) (sym (drop-append_le n xs ys (omega arith)))
    ∙ drop-drop n k (length (xs ++ ys) - 10) (xs ++ ys)
        (omega (arith, length-append (drop n xs) ys, length-append xs ys, length-drop n xs))

length-last_ten : (xs : List Bytes) → length (last_ten xs) ≤ 10
length-last_ten xs = omega (arith, length-drop (length xs - 10) xs)

-- Whatever errors are added to a store with ten or fewer, those that `Errors` gives are the last ten
-- of all of them, in their order.
pub add_errors-last_ten :
    (s : Health) (ms : List Bytes)
    → length s.errors ≤ 10
    → (add_errors s ms).errors ≡ last_ten (s.errors ++ ms)
unfolding add_error
add_errors-last_ten s [] h =
    let none_over : length (s.errors ++ []) - 10 ≡ 0 =
      omega (arith, ap length (append-nil s.errors)) in
    sym (ap (λ n. drop n (s.errors ++ [])) none_over ∙ append-nil s.errors)
add_errors-last_ten s (m ∷ ms) h =
    let one = s.errors ++ m ∷ [] in
    let fits : length one ≤ 11 = omega (arith, length-append s.errors (m ∷ [])) in
    let now = trim_errors-last_ten one fits in
    add_errors-last_ten (add_error s m) ms
      (subst (λ xs. length xs ≤ 10) (sym now) (length-last_ten one))
    ∙ ap (λ xs. last_ten (xs ++ ms)) now
    ∙ last_ten-last_ten one ms
    ∙ ap last_ten (append_assoc s.errors (m ∷ []) ms)
