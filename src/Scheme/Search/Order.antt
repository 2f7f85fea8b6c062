-- ===== src/Scheme/Search/Order.antt =====
-- `strings.Compare` orders strings.
use mathlib.Core.Bool.{false≢true}
use ayd.Common.{sym, true, false, ◌≡◌, refl, [], ◌∷◌, Bytes, arith}
use ayd.Scheme.Search.{at_most}

pub at_most_refl : (a : Bytes) → at_most a a ≡ true
unfolding at_most
at_most_refl [] = refl
at_most_refl (x ∷ a) = ground (arith, at_most_refl a)

pub at_most_trans : (a b c : Bytes) → at_most a b ≡ true → at_most b c ≡ true → at_most a c ≡ true
unfolding at_most
at_most_trans [] b c h k = refl
at_most_trans (x ∷ a) [] c h k = absurd (false≢true h)
at_most_trans (x ∷ a) (y ∷ b) [] h k = absurd (false≢true k)
at_most_trans (x ∷ a) (y ∷ b) (z ∷ c) h k = ground (arith, at_most_trans a b c)

pub at_most_antisym : (a b : Bytes) → at_most a b ≡ true → at_most b a ≡ true → a ≡ b
unfolding at_most
at_most_antisym [] [] h k = refl
at_most_antisym [] (y ∷ b) h k = absurd (false≢true k)
at_most_antisym (x ∷ a) [] h k = absurd (false≢true h)
at_most_antisym (x ∷ a) (y ∷ b) h k = ground (arith, at_most_antisym a b)

pub at_most_total : (a b : Bytes) → at_most a b ≡ false → at_most b a ≡ true
unfolding at_most
at_most_total [] b h = absurd (false≢true (sym h))
at_most_total (x ∷ a) [] h = refl
at_most_total (x ∷ a) (y ∷ b) h = ground (arith, at_most_total a b)
