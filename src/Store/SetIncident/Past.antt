-- ===== src/Store/SetIncident/Past.antt =====
-- internal/store/store.go: the incident history, where records arrive late.
use ayd.Common.{
  ℕ, ◌+◌, ◌≤◌, ◌<◌, Bool, false, ◌≡◌, ap, ◌∙◌, List, [], ◌∷◌, ◌++◌, some, length, length-append,
  ◌==◌, if◌then◌else◌, arith,
}
use ayd.Api.Status.{Status, status_eq_iff}
use ayd.Api.Record.{Record}
use ayd.Store.Incident.{incident_history_len, Incidents, search_last_incident}
use ayd.Store.SetIncident.{
  trim_incidents, continues, end_incident, set_incident_found, set_incident_if_need,
}
use ayd.Store.SetIncident.Steps.{
  notify_if_keeps, set_incident_live, found_ends, open_if_unhealthy_well, healthy_live,
}

-- How often an address is listed.
abbrev pub count : ℕ → List ℕ → ℕ
count p [] = 0
count p (q ∷ qs) = (if q == p then 1 else 0) + count p qs

count-append : (p : ℕ) (xs ys : List ℕ) → count p (xs ++ ys) ≡ count p xs + count p ys
count-append p [] ys = omega arith
count-append p (x ∷ xs) ys = omega (arith, count-append p xs ys)

module _ {X : Type 0} where
  history-end_incident :
      (s : Incidents X) (p : ℕ) (r : Record X) (need : Bool)
      → length s.incident_history < incident_history_len
      → (end_incident s p r need).incident_history ≡ s.incident_history ++ p ∷ []
  unfolding end_incident
  history-end_incident s p r need short =
      (notify_if_keeps _ _ 0 (r ∷ [])).2
      ∙ trim_short (s.incident_history ++ p ∷ [])
          (omega (arith, length-append s.incident_history (p ∷ [])))
    where
      trim_short : (ps : List ℕ) → length ps ≤ incident_history_len → trim_incidents ps ≡ ps
      trim_short ps h = ground arith

  -- A healthy record that differs from the incident found for it, where that incident is in a
  -- history below its limit, lists its address once more: the same incident stands in the history
  -- twice.
  pub recovery_in_past_duplicates :
      (s : Incidents X) (r : Record X) (need : Bool) (p : ℕ)
      → r.status ≡ Status.healthy
      → search_last_incident s r.target.text r.time ≡ some p
      → continues (s.heap p) r ≡ false
      → 1 ≤ count p s.incident_history
      → length s.incident_history < incident_history_len
      → 2 ≤ count p (set_incident_if_need s r need).incident_history
  recovery_in_past_duplicates s r need p well found differs old short =
      let after =
        ap (λ x. x.incident_history)
          (set_incident_live s r need (healthy_live r well)
            ∙ ap (λ o. set_incident_found o s r need) found
            ∙ found_ends p s r need differs
            ∙ open_if_unhealthy_well (end_incident s p r need) r need ((status_eq_iff _ _).1 well))
        ∙ history-end_incident s p r need short in
      omega (arith, ap (count p) after, count-append p s.incident_history (p ∷ []), count_self p)
    where
      count_self : (p : ℕ) → count p (p ∷ []) ≡ 1
      count_self p = ground arith
