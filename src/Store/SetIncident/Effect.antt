-- ===== src/Store/SetIncident/Effect.antt =====
-- internal/store/store.go: what `setIncidentIfNeed` does to the current incidents and the callbacks.
use ayd.Common.{
  ℕ, Bool, ◌≡◌, refl, ap, ◌∙◌, inl, inr, Option, none, some, bytes_eq_refl, if◌then◌else◌,
  Bool-cases, lookup,
}
use ayd.Api.Status.{Status, status_eq_iff}
use ayd.Api.Record.{Record}
use ayd.Store.Incident.{Incidents, search_past, search_last_incident, or_else}
use ayd.Store.SetIncident.{continues, end_incident, set_incident_found, set_incident_if_need}
use ayd.Store.SetIncident.Pointers.{IsValid}
use ayd.Store.SetIncident.Steps.{
  lookup-end_incident, set_incident_live, found_continues, found_ends, open_if_unhealthy_well,
  current-continue_incident, healthy_differs, found_none, healthy_live, or_else_cases, or_else-none,
}

module _ {X : Type 0} where
  recovers_found :
      (o : Option ℕ) (s : Incidents X) (r : Record X) (need : Bool)
      → IsValid s
      → r.status ≡ Status.healthy
      → or_else (lookup r.target.text s.current_incidents) (search_past s r.target.text r.time) ≡ o
      → lookup r.target.text (set_incident_found o s r need).current_incidents ≡ none
  recovers_found none s r need v well e =
      ap (λ x. lookup r.target.text x.current_incidents)
        (found_none s r need ∙ open_if_unhealthy_well s r need ((status_eq_iff _ _).1 well))
      ∙ or_else-none (lookup r.target.text s.current_incidents) (search_past s r.target.text r.time)
          e
  recovers_found (some p) s r need v well e = elim (Bool-cases (continues (s.heap p) r)) [
    | inl same ↦
        elim (or_else_cases (lookup r.target.text s.current_incidents)
          (search_past s r.target.text r.time) p e) [
            | inl cur ↦ absurd (
                healthy_differs (s.heap p) r well (v.current_sound r.target.text p cur).unhealthy
                  same)
            | inr (free, _) ↦
                ap (λ x. lookup r.target.text x.current_incidents) (found_continues p s r need same)
                ∙ ap (lookup r.target.text) (current-continue_incident s p r)
                ∙ free
          ]
    | inr differs ↦
        ap (λ x. lookup r.target.text x.current_incidents)
          (found_ends p s r need differs
            ∙ open_if_unhealthy_well (end_incident s p r need) r need ((status_eq_iff _ _).1 well))
        ∙ lookup-end_incident s p r need r.target.text
        ∙ ap (λ b. if b then none else lookup r.target.text s.current_incidents)
            (bytes_eq_refl r.target.text)
  ]

  -- When a healthy record is reported to a sound state, its target has no current incident any
  -- more, whatever the time of the record.
  pub set_incident_recovers :
      (s : Incidents X) (r : Record X) (need : Bool)
      → IsValid s
      → r.status ≡ Status.healthy
      → lookup r.target.text (set_incident_if_need s r need).current_incidents ≡ none
  unfolding search_last_incident
  set_incident_recovers s r need v e =
      ap (λ x. lookup r.target.text x.current_incidents)
        (set_incident_live s r need (healthy_live r e))
      ∙ recovers_found (search_last_incident s r.target.text r.time) s r need v e refl
