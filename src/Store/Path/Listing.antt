-- ===== src/Store/Path/Listing.antt =====
-- internal/store/pattern.go: `Less` and `ListAll`. `sort.Slice` is modelled as it sorts at most twelve
-- elements, by insertion.
use ayd.Common.{
  ℕ, zero, suc, ◌-◌, Bool, true, false, not, List, [], ◌∷◌, Option, none, some, Bytes, ◌≡◌, refl,
  ltb, ◌==◌, if◌then◌else◌, get_elem?, length,
}
use ayd.Store.Path.{TimePattern}
use ayd.Store.Path.Files.{PathPattern, parse_time_pattern}

-- A number of a pattern, from the -1 of an unset one on.
abbrev pub rank : Option ℕ → ℕ
rank none = 0
rank (some n) = suc n

-- `timePattern.Less`
unfoldable pub less : TimePattern → TimePattern → Bool
less p x =
    if not (rank p.year == rank x.year)
    then ltb (rank p.year) (rank x.year)
    else if not (rank p.month == rank x.month)
    then ltb (rank p.month) (rank x.month)
    else if not (rank p.day == rank x.day)
    then ltb (rank p.day) (rank x.day)
    else if not (rank p.hour == rank x.hour)
    then ltb (rank p.hour) (rank x.hour)
    else ltb (rank p.minute) (rank x.minute)

-- `rs` and `tps`
pub record Listed : Type 0 where
  pub names : List Bytes
  pub times : List TimePattern

abbrev pub with_file : Bytes → Option TimePattern → Listed → Listed
with_file x none l = l
with_file x (some tp) l = record { names = x ∷ l.names; times = tp ∷ l.times }

-- The loop of `ListAll` over the names that `filepath.Glob` gives.
unfoldable pub parse_names : PathPattern → List Bytes → Listed
parse_names p [] = record { names = []; times = [] }
parse_names p (x ∷ xs) = with_file x (parse_time_pattern p x) (parse_names p xs)

-- `rs[i], rs[i+1] = rs[i+1], rs[i]`
unfoldable pub swap_at {ℓ} : {A : Type ℓ} → ℕ → List A → List A
swap_at i [] = []
swap_at i (x ∷ []) = x ∷ []
swap_at zero (x ∷ y ∷ rs) = y ∷ x ∷ rs
swap_at (suc i) (x ∷ y ∷ rs) = x ∷ swap_at i (y ∷ rs)

-- `for j := i; j > 0 && less(j, j-1); j-- { swap(j, j-1) }`
unfoldable pub sink {ℓ} : {A : Type ℓ} → (ℕ → ℕ → Bool) → ℕ → List A → List A
sink below zero rs = rs
sink below (suc j) rs =
    let next = sink below j (swap_at j rs) in if below (suc j) j then next else rs

-- `for i := 1; i < n; i++`, with `left` rounds to go.
unfoldable pub sort_rounds {ℓ} : {A : Type ℓ} → (ℕ → ℕ → Bool) → ℕ → ℕ → List A → List A
sort_rounds below zero i rs = rs
sort_rounds below (suc left) i rs = sort_rounds below left (suc i) (sink below i rs)

-- `sort.Slice(rs, below)`
unfoldable pub sort_slice {ℓ} : {A : Type ℓ} → (ℕ → ℕ → Bool) → List A → List A
sort_slice below rs = sort_rounds below (length rs - 1) 1 rs

abbrev pub both_less : Option TimePattern → Option TimePattern → Bool
both_less (some a) (some b) = less a b
both_less _ _ = false

-- `func(i, j int) bool { return tps[i].Less(tps[j]) }`
unfoldable pub less_at : List TimePattern → ℕ → ℕ → Bool
less_at tps i j = both_less (get_elem? tps i) (get_elem? tps j)

abbrev pub sorted_names : Listed → List Bytes
sorted_names l = sort_slice (less_at l.times) l.names

-- `ListAll`, on the answer of `filepath.Glob(p.Glob())`.
unfoldable pub list_all : PathPattern → Option (List Bytes) → List Bytes
list_all p none = []
list_all p (some xs) = sorted_names (parse_names p xs)

-- `sort.Slice` moves the names and not the times that it compares. Of three files, where the second
-- is of an earlier time than the first and the third is not of an earlier time than the second, the
-- third stays last, even where it is of an earlier time than the first.
pub list_all_unsorted :
    (p : PathPattern) (x y z : Bytes) (a b c : TimePattern)
    → parse_time_pattern p x ≡ some a
    → parse_time_pattern p y ≡ some b
    → parse_time_pattern p z ≡ some c
    → less b a ≡ true
    → less c b ≡ false
    → list_all p (some (x ∷ y ∷ z ∷ [])) ≡ y ∷ x ∷ z ∷ []
unfolding list_all parse_names sort_slice sort_rounds sink swap_at less_at
list_all_unsorted p x y z a b c ex ey ez lt ge = rw (ex, ey, ez, lt, ge) refl
