-- ===== src/Store/History/Sources.antt =====
-- internal/store/probehistory.go: the sources of a target behave as a set.
use mathlib.Core.Bool.{false≢true}
use ayd.Common.{
  true, ◌<◌, not, ◌==◌, length, length-append, false, ◌||◌, ◌≡◌, refl, List, [], ◌∷◌, ◌++◌, Bytes,
  bytes_eq, bytes_eq_iff, arith, if◌then◌else◌, inl, inr, Bool-cases,
}
use ayd.Api.Record.{Url}
use ayd.Store.History.{ProbeHistory, has_source, cut_source, add_source, remove_source}

-- No source is listed twice.
abbrev pub Distinct : List Bytes → Type 0
Distinct [] = Unit
Distinct (x ∷ xs) = (has_source x xs ≡ false) × Distinct xs

has_source-concat :
    (j s : Bytes) (xs : List Bytes)
    → has_source j (xs ++ s ∷ []) ≡ (has_source j xs || bytes_eq s j)
unfolding has_source
has_source-concat j s [] = ground arith
has_source-concat j s (x ∷ xs) = ground (arith, has_source-concat j s xs)

Distinct-concat :
    (s : Bytes) (xs : List Bytes) → has_source s xs ≡ false → Distinct xs → Distinct (xs ++ s ∷ [])
unfolding has_source
Distinct-concat s [] h d = (refl, tt)
Distinct-concat s (x ∷ xs) h d = (
  ground (arith, has_source-concat x s xs, bytes_eq_iff s x, bytes_eq_iff x s),
  Distinct-concat s xs (ground arith) d.1,
)

pub has_source-cut_source :
    (s j : Bytes) (xs : List Bytes)
    → Distinct xs
    → has_source j (cut_source s xs) ≡ (if bytes_eq s j then false else has_source j xs)
unfolding has_source cut_source
has_source-cut_source s j [] d = ground arith
has_source-cut_source s j (x ∷ xs) d =
    ground
      (arith, has_source-cut_source s j xs, bytes_eq_iff s j, bytes_eq_iff x s, bytes_eq_iff x j)

pub Distinct-cut_source : (s : Bytes) (xs : List Bytes) → Distinct xs → Distinct (cut_source s xs)
unfolding has_source cut_source
Distinct-cut_source s [] d = tt
Distinct-cut_source s (x ∷ xs) d = elim (Bool-cases (bytes_eq x s)) [
  | inl same ↦ rw same d.1
  | inr other ↦
      rw other (ground (arith, has_source-cut_source s x xs d.1), Distinct-cut_source s xs d.1)
]

-- `addSource`, on the list.
abbrev pub added : Bytes → List Bytes → List Bytes
added s xs = if has_source s xs then xs else xs ++ s ∷ []

pub has_source-added :
    (s j : Bytes) (xs : List Bytes) → has_source j (added s xs) ≡ (has_source j xs || bytes_eq s j)
has_source-added s j xs = ground (arith, has_source-concat j s xs, bytes_eq_iff s j)

pub Distinct-added : (s : Bytes) (xs : List Bytes) → Distinct xs → Distinct (added s xs)
Distinct-added s xs d = elim (Bool-cases (has_source s xs)) [
  | inl old ↦ rw old d
  | inr new ↦ rw new (Distinct-concat s xs new d)
]

has_source_nonempty : (s : Bytes) (xs : List Bytes) → has_source s xs ≡ true → 0 < length xs
unfolding has_source
has_source_nonempty s [] h = absurd (false≢true h)
has_source_nonempty s (x ∷ xs) h = omega arith

pub added_nonempty : (s : Bytes) (xs : List Bytes) → not (length (added s xs) == 0) ≡ true
added_nonempty s xs = elim (Bool-cases (has_source s xs)) [
  | inl old ↦ rw old (ground (arith, has_source_nonempty s xs old))
  | inr new ↦ rw new (ground (arith, length-append xs (s ∷ [])))
]

pub sources-add_source :
    {X : Type 0} (ph : ProbeHistory X) (source : Url)
    → (add_source ph source).sources ≡ added source.text ph.sources
unfolding add_source
sources-add_source ph source = ground arith

module _ {X : Type 0} (ph : ProbeHistory X) (source : Url) where
  -- Where no reporter is listed twice, adding and removing one are insertion into a set and removal
  -- from it, and still none is listed twice.
  pub sources_laws :
      Distinct ph.sources
      → ((j : Bytes)
          → (has_source j (add_source ph source).sources
              ≡ (has_source j ph.sources || bytes_eq source.text j))
            × (has_source j (remove_source ph source).sources
                ≡ (if bytes_eq source.text j then false else has_source j ph.sources)))
        × Distinct (add_source ph source).sources
        × Distinct (remove_source ph source).sources
  unfolding remove_source
  sources_laws d = (
    λ j. (
      rw (sources-add_source ph source) (has_source-added source.text j ph.sources),
      has_source-cut_source source.text j ph.sources d,
    ),
    rw (sources-add_source ph source) (Distinct-added source.text ph.sources d),
    Distinct-cut_source source.text ph.sources d,
  )
