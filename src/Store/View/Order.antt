-- ===== src/Store/View/Order.antt =====
-- internal/store/incident.go: the current incidents are in the order of their start and target.
use mathlib.Core.List.{Perm}
use mathlib.Core.List.Perm
use mathlib.Core.Bool.{false≢true}
use mathlib.Core.Path.{subst}
use ayd.Common.{
  ℕ, ◌<◌, Bool, true, false, ◌≡◌, refl, ap, sym, ◌∙◌, List, [], ◌∷◌, Option, none, some, Bytes, All,
  ◌⊎◌, ltb, ◌==◌, ==_iff, not, length, if◌then◌else◌, tests, lookup, Bool-cases, inl, inr, arith,
}
use ayd.Scheme.Search.{at_most}
use ayd.Scheme.Search.Order.{at_most_trans, at_most_total}
use ayd.Store.Incident.{Incident, Incidents}
use ayd.Store.View.{less, insert_incident, sort_incidents, active_current, addresses, make_report}
use ayd.Store.History.{ProbeHistory, entry_is_active, target_is_active, is_active}
use ayd.Store.Report.{active_incidents, incident_history_view}

below_trans : (a b c : Bytes) → at_most b a ≡ false → at_most c b ≡ false → at_most c a ≡ false
below_trans a b c h k = elim (Bool-cases (at_most c a)) [
  | inl low ↦ absurd (false≢true (sym h ∙ at_most_trans b c a (at_most_total c b k) low))
  | inr high ↦ high
]

less_trans : (x y z : Incident) → less x y ≡ true → less y z ≡ true → less x z ≡ true
unfolding less
less_trans x y z h k = ground (arith, below_trans x.target.text y.target.text z.target.text)

less_asym : (x y : Incident) → less x y ≡ true → less y x ≡ false
unfolding less
less_asym x y h = ground (arith, at_most_total x.target.text y.target.text)

abbrev NotLess : Incident → Incident → Type 0
NotLess y z = less z y ≡ false

-- No incident stands behind one that it is less than.
abbrev InOrder : List Incident → Type 0
InOrder [] = Unit
InOrder (y ∷ ys) = All (NotLess y) ys × InOrder ys

NotLess-before : (x y z : Incident) → less x y ≡ true → less z y ≡ false → less z x ≡ false
NotLess-before x y z h k = elim (Bool-cases (less z x)) [
  | inl before ↦ absurd (false≢true (sym k ∙ less_trans z x y before h))
  | inr behind ↦ behind
]

All-before :
    (x y : Incident) (ys : List Incident)
    → less x y ≡ true
    → All (NotLess y) ys
    → All (NotLess x) ys
All-before x y [] h all = tt
All-before x y (z ∷ ys) h all = (NotLess-before x y z h all.0, All-before x y ys h all.1)

All-insert_incident :
    (x y : Incident) (ys : List Incident)
    → less x y ≡ false
    → All (NotLess y) ys
    → All (NotLess y) (insert_incident x ys)
unfolding insert_incident
All-insert_incident x y [] h all = (h, tt)
All-insert_incident x y (z ∷ ys) h all = elim (Bool-cases (less x z)) [
  | inl first ↦ rw first (h, all)
  | inr later ↦ rw later (all.0, All-insert_incident x y ys h all.1)
]

insert_incident-InOrder :
    (x : Incident) (ys : List Incident)
    → InOrder ys
    → InOrder (insert_incident x ys) × Perm (insert_incident x ys) (x ∷ ys)
unfolding insert_incident
insert_incident-InOrder x [] s = ((tt, tt), Perm.refl (x ∷ []))
insert_incident-InOrder x (y ∷ ys) s = elim (Bool-cases (less x y)) [
  | inl first ↦
      rw first (((less_asym x y first, All-before x y ys first s.0), s), Perm.refl (x ∷ y ∷ ys))
  | inr later ↦
      let (sorted, perm) = insert_incident-InOrder x ys s.1 in
      rw later (
        (All-insert_incident x y ys later s.0, sorted),
        Perm.trans (Perm.cons y perm) (Perm.swap x y ys),
      )
]

sort_incidents-InOrder :
    (xs : List Incident) → InOrder (sort_incidents xs) × Perm (sort_incidents xs) xs
unfolding sort_incidents
sort_incidents-InOrder [] = (tt, Perm.refl [])
sort_incidents-InOrder (x ∷ xs) =
    let (sorted, perm) = sort_incidents-InOrder xs in
    let (sorted', perm') = insert_incident-InOrder x (sort_incidents xs) sorted in
    (sorted', Perm.trans perm' (Perm.cons x perm))

-- The order of dictionaries.
abbrev AtMostText : Bytes → Bytes → Type 0
AtMostText [] b = Unit
AtMostText (x ∷ a) [] = ⊥
AtMostText (x ∷ a) (y ∷ b) = (x < y) ⊎ ((x ≡ y) × AtMostText a b)

-- The first incident started earlier, or both started together and the target of the first comes no
-- later in a dictionary.
abbrev pub CausedFirst : Incident → Incident → Type 0
CausedFirst x y =
    (x.starts_at < y.starts_at)
    ⊎ ((x.starts_at ≡ y.starts_at) × AtMostText x.target.text y.target.text)

abbrev pub Sorted : List Incident → Type 0
Sorted [] = Unit
Sorted (x ∷ xs) = All (CausedFirst x) xs × Sorted xs

at_most-AtMostText : (a b : Bytes) → at_most a b ≡ true → AtMostText a b
unfolding at_most
at_most-AtMostText [] b h = tt
at_most-AtMostText (x ∷ a) [] h = absurd (false≢true h)
at_most-AtMostText (x ∷ a) (y ∷ b) h = elim (Bool-cases (ltb x y)) [
  | inl lower ↦ inl (omega tests)
  | inr other ↦ inr (ground arith, at_most-AtMostText a b (ground arith))
]

NotLess-CausedFirst : (x y : Incident) → NotLess x y → CausedFirst x y
unfolding less
NotLess-CausedFirst x y h = elim (Bool-cases (y.starts_at == x.starts_at)) [
  | inl same ↦ inr (
    sym ((==_iff y.starts_at x.starts_at).0 same),
    at_most-AtMostText x.target.text y.target.text (ground arith),
  )
  | inr apart ↦ inl (ground arith)
]

InOrder-Sorted : (xs : List Incident) → InOrder xs → Sorted xs
InOrder-Sorted [] h = tt
InOrder-Sorted (x ∷ xs) h = (go xs h.0, InOrder-Sorted xs h.1)
  where
    go : (ys : List Incident) → All (NotLess x) ys → All (CausedFirst x) ys
    go [] k = tt
    go (y ∷ ys) k = (NotLess-CausedFirst x y k.0, go ys k.1)

-- The addresses that a map holds.
abbrev pub held : List (Bytes × ℕ) → List ℕ
held [] = []
held ((k, p) ∷ m) = p ∷ held m

module _ {X : Type 0} where
  -- A target is watched where its history has a source.
  abbrev has_any : Option (ProbeHistory X) → Bool
  has_any none = false
  has_any (some h) = elim h.sources [ [] ↦ false | _ ∷ _ ↦ true ]

  -- The incidents at the addresses whose targets are watched, in their order.
  abbrev pub watched : Incidents X → List ℕ → List Incident
  watched s [] = []
  watched s (p ∷ ps) =
      if has_any (lookup (s.heap p).target.text s.probe_history)
      then s.heap p ∷ watched s ps
      else watched s ps

  target_is_active-has_any :
      (s : Incidents X) (p : ℕ)
      → target_is_active s.probe_history (s.heap p).target
        ≡ has_any (lookup (s.heap p).target.text s.probe_history)
  unfolding target_is_active is_active
  target_is_active-has_any s p = go (lookup (s.heap p).target.text s.probe_history)
    where
      any : (xs : List Bytes) → not (length xs == 0) ≡ elim xs [ [] ↦ false | _ ∷ _ ↦ true ]
      any [] = refl
      any (x ∷ xs) = ground arith

      go : (o : Option (ProbeHistory X)) → entry_is_active o ≡ has_any o
      go none = refl
      go (some h) = any h.sources

  active_incidents-watched : (s : Incidents X) (ps : List ℕ) → active_incidents s ps ≡ watched s ps
  unfolding active_incidents
  active_incidents-watched s [] = refl
  active_incidents-watched s (p ∷ ps) =
      rw (target_is_active-has_any s p, active_incidents-watched s ps) refl

  active_current-watched :
      (s : Incidents X) → active_current s ≡ watched s (held s.current_incidents)
  unfolding active_current
  active_current-watched s = active_incidents-watched s _ ∙ ap (watched s) (go s.current_incidents)
    where
      go : (m : List (Bytes × ℕ)) → addresses m ≡ held m
      go [] = refl
      go ((k, p) ∷ m) = ap (◌∷◌ p) (go m)

-- The current incidents of a report are those of the targets that have a source in the history, each
-- as often as the map of current incidents holds its address, in the order of their start and, of the
-- same start, of their targets. The other list has the past incidents of such targets, in the order
-- in which they came into the history.
pub make_report-Sorted :
    {X : Type 0} (s : Incidents X) (n : ℕ)
    → Sorted (make_report s n).current_incidents
      × Perm (make_report s n).current_incidents (watched s (held s.current_incidents))
      × ((make_report s n).incident_history ≡ watched s s.incident_history)
unfolding make_report incident_history_view
make_report-Sorted s n =
    let (in_order, perm) = sort_incidents-InOrder (active_current s) in
    (
      InOrder-Sorted _ in_order,
      subst (Perm (sort_incidents (active_current s))) (active_current-watched s) perm,
      active_incidents-watched s s.incident_history,
    )
