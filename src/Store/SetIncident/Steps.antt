-- ===== src/Store/SetIncident/Steps.antt =====
-- internal/store/store.go: the branches of `setIncidentIfNeed` as equations.
use mathlib.Core.Bool.{false≢true}
use ayd.Common.{
  ℕ, Bool, true, false, ◌≡◌, refl, sym, ap, ◌∙◌, ◌⊎◌, inl, inr, List, [], ◌∷◌, Option, none, some,
  Bytes, bytes_eq, arith, if◌then◌else◌, Bool-cases, lookup, delete, lookup-insert, lookup-delete,
}
use ayd.Api.Status.{Status, status_eq}
use ayd.Api.Record.{Record}
use ayd.Store.Incident.{Incident, Incidents, records_of, last_after, search_last_incident, or_else}
use ayd.Store.SetIncident.{
  notify_if, open_incident, continues, end_incident, continue_incident, open_if_unhealthy,
  set_incident_found, set_incident_if_need,
}

-- The current incident of the target, or none.
pub or_else_cases :
    (a b : Option ℕ) (p : ℕ) → or_else a b ≡ some p → (a ≡ some p) ⊎ ((a ≡ none) × (b ≡ some p))
or_else_cases none b p e = inr (refl, e)
or_else_cases (some x) b p e = inl e

pub or_else-none : (a b : Option ℕ) → or_else a b ≡ none → a ≡ none
or_else-none none b e = refl
or_else-none (some x) b e = absurd (ground arith)

module _ {X : Type 0} where
  pub notify_if_keeps :
      (need : Bool) (s : Incidents X) (n : ℕ) (rs : List (Record X))
      → ((notify_if need s n rs).current_incidents ≡ s.current_incidents)
        × ((notify_if need s n rs).heap ≡ s.heap)
        × ((notify_if need s n rs).incident_history ≡ s.incident_history)
        × ((notify_if need s n rs).probe_history ≡ s.probe_history)
  unfolding notify_if
  notify_if_keeps true s n rs = (refl, refl, refl, refl)
  notify_if_keeps false s n rs = (refl, refl, refl, refl)

  pub current-end_incident :
      (s : Incidents X) (p : ℕ) (r : Record X) (need : Bool)
      → (end_incident s p r need).current_incidents ≡ delete r.target.text s.current_incidents
  unfolding end_incident
  current-end_incident s p r need = (notify_if_keeps _ _ 0 (r ∷ [])).0

  pub lookup-open_incident :
      (s : Incidents X) (r : Record X) (need : Bool) (k : Bytes)
      → bytes_eq r.target.text k ≡ false
      → lookup k (open_incident s r need).current_incidents ≡ lookup k s.current_incidents
  unfolding open_incident
  lookup-open_incident s r need k ne =
      elim (Bool-cases (last_after (records_of (lookup r.target.text s.probe_history)) r.time)) [
        | inl late ↦ rw late (ap (lookup k) (notify_if_keeps need _ 1 _).0)
        | inr now ↦ rw now (
            ap (lookup k) (notify_if_keeps need _ 1 _).0
            ∙ lookup-insert r.target.text k s.next s.current_incidents
            ∙ ap (λ b. if b then some s.next else lookup k s.current_incidents) ne)
      ]

  pub lookup-open_if_unhealthy :
      (s : Incidents X) (r : Record X) (need : Bool) (k : Bytes)
      → bytes_eq r.target.text k ≡ false
      → lookup k (open_if_unhealthy s r need).current_incidents ≡ lookup k s.current_incidents
  unfolding open_if_unhealthy
  lookup-open_if_unhealthy s r need k ne = elim (Bool-cases (status_eq r.status Status.healthy)) [
    | inl well ↦ rw well
    | inr sick ↦ rw sick (lookup-open_incident s r need k ne)
  ]

  pub lookup-end_incident :
      (s : Incidents X) (p : ℕ) (r : Record X) (need : Bool) (k : Bytes)
      → lookup k (end_incident s p r need).current_incidents
        ≡ (if bytes_eq r.target.text k then none else lookup k s.current_incidents)
  lookup-end_incident s p r need k =
      ap (lookup k) (current-end_incident s p r need)
      ∙ lookup-delete r.target.text k s.current_incidents

  pub lookup-set_incident_found :
      (o : Option ℕ) (s : Incidents X) (r : Record X) (need : Bool) (k : Bytes)
      → bytes_eq r.target.text k ≡ false
      → lookup k (set_incident_found o s r need).current_incidents ≡ lookup k s.current_incidents
  unfolding set_incident_found continue_incident
  lookup-set_incident_found none s r need k ne = lookup-open_if_unhealthy s r need k ne
  lookup-set_incident_found (some p) s r need k ne = elim (Bool-cases (continues (s.heap p) r)) [
    | inl same ↦ rw same
    | inr differs ↦ rw differs (
        lookup-open_if_unhealthy (end_incident s p r need) r need k ne
        ∙ lookup-end_incident s p r need k
        ∙ ap (λ b. if b then none else lookup k s.current_incidents) ne)
  ]

  -- Anything but an aborted check is looked up and acted on.
  pub set_incident_live :
      (s : Incidents X) (r : Record X) (need : Bool)
      → status_eq r.status Status.aborted ≡ false
      → set_incident_if_need s r need
        ≡ set_incident_found (search_last_incident s r.target.text r.time) s r need
  unfolding set_incident_if_need
  set_incident_live s r need h = rw h

  pub found_continues :
      (p : ℕ) (s : Incidents X) (r : Record X) (need : Bool)
      → continues (s.heap p) r ≡ true
      → set_incident_found (some p) s r need ≡ continue_incident s p r
  unfolding set_incident_found
  found_continues p s r need h = rw h

  pub found_ends :
      (p : ℕ) (s : Incidents X) (r : Record X) (need : Bool)
      → continues (s.heap p) r ≡ false
      → set_incident_found (some p) s r need ≡ open_if_unhealthy (end_incident s p r need) r need
  unfolding set_incident_found
  found_ends p s r need h = rw h

  pub open_if_unhealthy_well :
      (s : Incidents X) (r : Record X) (need : Bool)
      → status_eq r.status Status.healthy ≡ true
      → open_if_unhealthy s r need ≡ s
  unfolding open_if_unhealthy
  open_if_unhealthy_well s r need h = rw h

  pub open_if_unhealthy_sick :
      (s : Incidents X) (r : Record X) (need : Bool)
      → status_eq r.status Status.healthy ≡ false
      → open_if_unhealthy s r need ≡ open_incident s r need
  unfolding open_if_unhealthy
  open_if_unhealthy_sick s r need h = rw h

  pub current-continue_incident :
      (s : Incidents X) (p : ℕ) (r : Record X)
      → (continue_incident s p r).current_incidents ≡ s.current_incidents
  unfolding continue_incident
  current-continue_incident s p r = refl

  pub continues_status :
      (x : Incident) (r : Record X) → continues x r ≡ true → status_eq x.status r.status ≡ true
  unfolding continues
  continues_status x r h = ground arith

  pub healthy_differs :
      (x : Incident) (r : Record X)
      → r.status ≡ Status.healthy
      → status_eq x.status Status.healthy ≡ false
      → continues x r ≡ true
      → ⊥
  healthy_differs x r e sick h =
      false≢true (sym sick ∙ ap (status_eq x.status) (sym e) ∙ continues_status x r h)

  pub found_none :
      (s : Incidents X) (r : Record X) (need : Bool)
      → set_incident_found none s r need ≡ open_if_unhealthy s r need
  unfolding set_incident_found
  found_none s r need = refl

  pub healthy_live :
      (r : Record X) → r.status ≡ Status.healthy → status_eq r.status Status.aborted ≡ false
  unfolding status_eq
  healthy_live r e = rw e
