-- ===== src/Tests/Errors.antt =====
-- Runs of the errors of a store and of lists of errors.
use ayd.Common.{◌≡◌, refl, true, List, [], ◌∷◌, ◌++◌, Bytes, codes, arith}
use ayd.Store.Errors.{Health, add_error, add_errors, last_ten, add_errors-last_ten}
use ayd.Ayderr.{ErrorValue, plain, error_list, nil, cons, error_text, split_lines}
use ayd.Ayderr.Lines.{IsIndented, lines_of_each, split_lines-error_text}

abbrev nine : List Bytes
nine =
    codes "1"
    ∷ codes "2"
    ∷ codes "3"
    ∷ codes "4"
    ∷ codes "5"
    ∷ codes "6"
    ∷ codes "7"
    ∷ codes "8"
    ∷ codes "9"
    ∷ []

abbrev health : Health
health = record { healthy = true; errors = nine }

abbrev three : List Bytes
three = codes "10" ∷ codes "11" ∷ codes "12" ∷ []

first_two_dropped :
    (add_errors health three).errors
    ≡ codes "3" ∷ codes "4" ∷ codes "5" ∷ codes "6" ∷ codes "7" ∷ codes "8" ∷ codes "9" ∷ three
unfolding add_error
first_two_dropped = refl

add_errors-last_ten_example : (add_errors health three).errors ≡ last_ten (nine ++ three)
add_errors-last_ten_example = add_errors-last_ten health three (omega arith)

abbrev heading : ErrorValue
heading = plain 1 (codes "invalid source")

abbrev inner : ErrorValue
inner = error_list (plain 2 (codes "x")) (cons (plain 3 (codes "y")) nil)

nested_text :
    error_text (error_list heading (cons inner nil)) ≡ codes "invalid source:\n  x:\n    y"
unfolding error_text
nested_text = refl

split_lines-error_text_example :
    (ks : List Bytes) × (split_lines (error_text (error_list heading (cons inner nil)))
      ≡ split_lines (error_text heading ++ b':' ∷ []) ++ ks)
    × IsIndented ks (lines_of_each (cons inner nil))
split_lines-error_text_example = split_lines-error_text heading (cons inner nil)
