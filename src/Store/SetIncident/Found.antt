-- ===== src/Store/SetIncident/Found.antt =====
-- internal/store/store.go: where the incident that `searchLastIncident` returns comes from.
use mathlib.Core.List.{reverse}
use mathlib.Core.Path.{subst}
use ayd.Common.{
  ℕ, ◌≡◌, sym, ap, ◌∙◌, ◌⊎◌, inl, inr, List, [], ◌∷◌, none, some, Bytes, arith, All, All-reverse,
  Bool-cases, Option-cases, lookup,
}
use ayd.Api.Record.{Time, Record}
use ayd.Store.Incident.{
  Incident, Incidents, records_of, last_before, search_history, search_past, or_else,
  search_last_incident, is_last_incident,
}

module _ {X : Type 0} where
  -- What is found in the history has every property that the whole history has.
  pub search_history_All :
      (P : ℕ → Type 0) (heap : ℕ → Incident) (records : List (Record X)) (target : Bytes) (t : Time)
      (ps : List ℕ) {p : ℕ}
      → search_history heap records target t ps ≡ some p
      → All P ps
      → P p
  unfolding search_history
  search_history_All P heap records target t [] h all = absurd (cc)
  search_history_All P heap records target t (q ∷ ps) {p} h all =
      elim (Bool-cases (is_last_incident records target t (heap q))) [
        | inl found ↦ let same : q ≡ p = ground arith in subst P same all.0
        | inr other ↦ search_history_All P heap records target t ps (ground arith) all.1
      ]

  pub search_past_All :
      (P : ℕ → Type 0) (s : Incidents X) (target : Bytes) (t : Time) (p : ℕ)
      → All P s.incident_history
      → search_past s target t ≡ some p
      → P p
  unfolding search_past
  search_past_All P s target t p all h =
      let records = records_of (lookup target s.probe_history) in
      elim (Bool-cases (last_before records t)) [
        | inl after ↦ absurd (ground arith)
        | inr _ ↦
            search_history_All P s.heap records target t (reverse s.incident_history) (ground arith)
              (All-reverse P s.incident_history all)
      ]

  -- The address that is found is the current one of the target, or has the properties of the history.
  pub search_last_incident_found :
      (P : ℕ → Type 0) (s : Incidents X) (target : Bytes) (t : Time) (p : ℕ)
      → All P s.incident_history
      → search_last_incident s target t ≡ some p
      → (lookup target s.current_incidents ≡ some p)
        ⊎ ((lookup target s.current_incidents ≡ none) × P p)
  unfolding search_last_incident
  search_last_incident_found P s target t p all h =
      elim (Option-cases (lookup target s.current_incidents)) [
        | inr (cur, e) ↦ inl (e ∙ sym (ap (λ o. or_else o (search_past s target t)) e) ∙ h)
        | inl e ↦ inr (
          e,
          search_past_All P s target t p all
              (sym (ap (λ o. or_else o (search_past s target t)) e) ∙ h),
        )
      ]
