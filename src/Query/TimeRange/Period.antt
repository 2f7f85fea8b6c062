-- ===== src/Query/TimeRange/Period.antt =====
-- internal/query/query.go: the periods that `TimeRange` computes with, and their instants.
use ayd.Common.{
  ◌≤◌, Bool, true, false, not, ◌≡◌, refl, Option, none, some, arith, ◌⊎◌, inl, inr, if◌then◌else◌,
  Bool-cases, tests, leb,
}
use ayd.Api.Record.{Time}
use ayd.Query.TimeRange.{Range, later, earlier, drop_inverted, flip}

abbrev pub FromStart : Option Time → Time → Type 0
FromStart none t = Unit
FromStart (some s) t = s ≤ t

abbrev pub ToEnd : Option Time → Time → Type 0
ToEnd none t = Unit
ToEnd (some e) t = t ≤ e

-- The instant lies in the period; an end that is missing bounds nothing.
abbrev pub InRange : Range → Time → Type 0
InRange (start, end) t = FromStart start t × ToEnd end t

pub later-FromStart :
    (s a : Option Time) (t : Time) → FromStart s t → FromStart a t → FromStart (later s a) t
unfolding later
later-FromStart none a t h k = k
later-FromStart (some s) none t h k = h
later-FromStart (some s) (some a) t h k = ground arith

pub earlier-ToEnd : (s a : Option Time) (t : Time) → ToEnd s t → ToEnd a t → ToEnd (earlier s a) t
unfolding earlier
earlier-ToEnd none a t h k = k
earlier-ToEnd (some s) none t h k = h
earlier-ToEnd (some s) (some a) t h k = ground arith

pub drop_inverted-InRange : (r : Range) (t : Time) → InRange r t → InRange (drop_inverted r) t
unfolding drop_inverted
drop_inverted-InRange (some s, some e) t h = ground arith
drop_inverted-InRange (none, none) t h = h
drop_inverted-InRange (some s, none) t h = h
drop_inverted-InRange (none, some e) t h = h

unfoldable pub is_some : Option Time → Bool
is_some none = false
is_some (some t) = true

pub earlier-FromStart :
    (s a : Option Time) (t : Time)
    → is_some s ≡ is_some a
    → FromStart s t ⊎ FromStart a t
    → FromStart (earlier s a) t
unfolding earlier is_some
earlier-FromStart none none t e h = tt
earlier-FromStart none (some a) t e h = cc
earlier-FromStart (some s) none t e h = cc
earlier-FromStart (some s) (some a) t e h = ground arith

pub later-ToEnd :
    (s a : Option Time) (t : Time)
    → is_some s ≡ is_some a
    → ToEnd s t ⊎ ToEnd a t
    → ToEnd (later s a) t
unfolding later is_some
later-ToEnd none none t e h = tt
later-ToEnd none (some a) t e h = cc
later-ToEnd (some s) none t e h = cc
later-ToEnd (some s) (some a) t e h = ground arith

pub is_some-earlier :
    (s a : Option Time) → is_some s ≡ is_some a → is_some (earlier s a) ≡ is_some a
unfolding earlier is_some
is_some-earlier s a h = ground arith

pub is_some-later : (s a : Option Time) → is_some s ≡ is_some a → is_some (later s a) ≡ is_some a
unfolding later is_some
is_some-later s a h = ground arith

-- The accumulators of the loop after the first alternative.
abbrev pub first : Range → Range
first r = (earlier r.0 none, later r.1 none)

pub first_lem : (r : Range) → first r ≡ r
unfolding earlier later
first_lem (none, none) = refl
first_lem (none, some e) = refl
first_lem (some s, none) = refl
first_lem (some s, some e) = refl

-- One round of the loop keeps an instant of either period.
pub widen {ℓ} :
    {P : Type ℓ} (q acc : Range) (t : Time)
    → is_some q.0 ≡ is_some acc.0
    → is_some q.1 ≡ is_some acc.1
    → (InRange acc t ⊎ InRange q t) ⊎ P
    → InRange (earlier q.0 acc.0, later q.1 acc.1) t ⊎ P
widen q acc t s e (inl (inl h)) =
    inl (earlier-FromStart q.0 acc.0 t s (inr h.0), later-ToEnd q.1 acc.1 t e (inr h.1))
widen q acc t s e (inl (inr h)) =
    inl (earlier-FromStart q.0 acc.0 t s (inl h.0), later-ToEnd q.1 acc.1 t e (inl h.1))
widen q acc t s e (inr p) = inr p

pub flip-InRange : (range : Range) (t : Time) → ¬ InRange range t → InRange (flip range) t
unfolding flip
flip-InRange (none, none) t h = (tt, tt)
flip-InRange (some s, some e) t h = (tt, tt)
flip-InRange (some s, none) t h = elim (Bool-cases (leb s t)) [
  | inl le ↦ absurd (h (omega tests, tt))
  | inr lt ↦ (tt, omega tests)
]
flip-InRange (none, some e) t h = elim (Bool-cases (leb t e)) [
  | inl le ↦ absurd (h (tt, omega tests))
  | inr lt ↦ (omega tests, tt)
]

pub not_both : (b : Bool) → b ≡ true → not b ≡ true → ⊥
not_both b h k = ground arith

pub both : (a b : Bool) → (if not a then false else b) ≡ true → (a ≡ true) × (b ≡ true)
both a b h = ground arith

pub either : (a b : Bool) → (if a then true else b) ≡ true → (a ≡ true) ⊎ (b ≡ true)
either true b h = inl refl
either false b h = inr h
