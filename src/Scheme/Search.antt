-- ===== src/Scheme/Search.antt =====
-- The binary search `sort.Search` of Go's library, and strings in the order of `strings.Compare`.
pub mod Least
pub mod Order
use Prim.Native.Nat.{◌/◌}
use ayd.Common.{ℕ, zero, suc, ◌+◌, Bool, true, false, not, [], ◌∷◌, Bytes, ltb, if◌then◌else◌}

-- The loop, from `i` up to `j`; the fuel bounds its turns.
unfoldable pub search_from : ℕ → ℕ → ℕ → (ℕ → Bool) → ℕ
search_from zero i j f = i
search_from (suc fuel) i j f =
    let h = (i + j) / 2 in
    let rest = search_from fuel (if not (f h) then h + 1 else i) (if not (f h) then j else h) f in
    if ltb i j then rest else i

-- `sort.Search(n, f)`
unfoldable pub sort_search : ℕ → (ℕ → Bool) → ℕ
unfolding search_from
sort_search n f = search_from n 0 n f

-- `strings.Compare(a, b) <= 0`
unfoldable pub at_most : Bytes → Bytes → Bool
at_most [] b = true
at_most (x ∷ a) [] = false
at_most (x ∷ a) (y ∷ b) =
    let rest = at_most a b in if ltb x y then true else if ltb y x then false else rest
