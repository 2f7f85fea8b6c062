-- ===== src/Query/Glob/Pattern.antt =====
-- internal/query/stringmatcher.go: what it means for a text to match literals and wildcards.
use ayd.Common.{◌≡◌, List, [], ◌∷◌, ◌++◌, Option, none, some, Bytes, append_assoc, ap, ◌∙◌, sym}

-- A text that begins with the literal, with the rest in `K`.
abbrev pub Lit : Bytes → (Bytes → Type 0) → Bytes → Type 0
Lit l K t = (v : Bytes) × (t ≡ l ++ v) × K v

-- Any run of bytes, with the rest in `K`.
abbrev pub Star : (Bytes → Type 0) → Bytes → Type 0
Star K t = (w : Bytes) × (v : Bytes) × (t ≡ w ++ v) × K v

-- The text as a whole matches the literals and wildcards, in their order.
abbrev pub Matches : List (Option Bytes) → Bytes → Type 0
Matches [] t = t ≡ []
Matches (some l ∷ query) t = Lit l (Matches query) t
Matches (none ∷ query) t = Star (Matches query) t

-- A run of bytes before each chunk and at the end.
abbrev pub Gaps : List Bytes → (Bytes → Type 0) → Bytes → Type 0
Gaps [] K t = Star K t
Gaps (c ∷ cs) K t = Star (Lit c (Gaps cs K)) t

module _ {K : Bytes → Type 0} where
  pub Star-append : (z : Bytes) {t : Bytes} → Star K t → Star K (z ++ t)
  Star-append z (w, v, e, k) = (z ++ w, v, ap (λ x. z ++ x) e ∙ sym (append_assoc z w v), k)

pub Gaps-append :
    (cs : List Bytes) (K : Bytes → Type 0) (z t : Bytes) → Gaps cs K t → Gaps cs K (z ++ t)
Gaps-append [] K z t h = Star-append z h
Gaps-append (c ∷ cs) K z t h = Star-append z h
