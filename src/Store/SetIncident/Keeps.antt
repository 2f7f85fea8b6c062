-- ===== src/Store/SetIncident/Keeps.antt =====
-- internal/store/store.go: the parts of the store that `setIncidentIfNeed` leaves alone.
use ayd.Common.{
  ℕ, Bool, true, false, ◌&&◌, ◌≡◌, refl, ap, ◌∙◌, inl, inr, List, [], ◌∷◌, Option, none, some,
  Bytes, Bool-cases, lookup,
}
use ayd.Api.Status.{Status, status_eq}
use ayd.Api.Record.{Record}
use ayd.Store.Incident.{Incident, Incidents, records_of, last_after, search_last_incident}
use ayd.Store.SetIncident.{
  notify_if, open_incident, continues, end_incident, continue_incident, open_if_unhealthy,
  set_incident_found, set_incident_if_need,
}
use ayd.Store.SetIncident.Steps.{
  set_incident_live, found_none, found_continues, found_ends, open_if_unhealthy_well,
  open_if_unhealthy_sick, notify_if_keeps,
}

-- A part of the store that writes to the incidents do not touch, nor the callbacks that are made.
module _ {X A : Type 0} (part : Incidents X → A) (need : Bool)
    (no_notice : (b : Bool) (s : Incidents X) (n : ℕ) (rs : List (Record X))
      → part (notify_if (b && need) s n rs) ≡ part s)
    (no_write : (s : Incidents X) (heap : ℕ → Incident) (next : ℕ) (current : List (Bytes × ℕ))
        (history : List ℕ)
      → part (record s {
        heap = heap;
        next = next;
        current_incidents = current;
        incident_history = history;
      })
        ≡ part s) where
  keeps-open_incident : (s : Incidents X) (r : Record X) → part (open_incident s r need) ≡ part s
  unfolding open_incident
  keeps-open_incident s r =
      elim (Bool-cases (last_after (records_of (lookup r.target.text s.probe_history)) r.time)) [
        | inl late ↦ rw late (no_notice true _ 1 _ ∙ no_write s _ _ s.current_incidents _)
        | inr now ↦ rw now (no_notice true _ 1 _ ∙ no_write s _ _ _ s.incident_history)
      ]

  keeps-open_if_unhealthy :
      (s : Incidents X) (r : Record X) → part (open_if_unhealthy s r need) ≡ part s
  keeps-open_if_unhealthy s r = elim (Bool-cases (status_eq r.status Status.healthy)) [
    | inl well ↦ ap part (open_if_unhealthy_well s r need well)
    | inr sick ↦ ap part (open_if_unhealthy_sick s r need sick) ∙ keeps-open_incident s r
  ]

  keeps-end_incident :
      (s : Incidents X) (p : ℕ) (r : Record X) → part (end_incident s p r need) ≡ part s
  unfolding end_incident
  keeps-end_incident s p r =
      no_notice (status_eq r.status Status.healthy) _ 0 (r ∷ []) ∙ no_write s _ s.next _ _

  keeps-continue_incident :
      (s : Incidents X) (p : ℕ) (r : Record X) → part (continue_incident s p r) ≡ part s
  unfolding continue_incident
  keeps-continue_incident s p r = no_write s _ s.next s.current_incidents s.incident_history

  keeps-set_incident_found :
      (o : Option ℕ) (s : Incidents X) (r : Record X)
      → part (set_incident_found o s r need) ≡ part s
  keeps-set_incident_found none s r = ap part (found_none s r need) ∙ keeps-open_if_unhealthy s r
  keeps-set_incident_found (some p) s r = elim (Bool-cases (continues (s.heap p) r)) [
    | inl same ↦ ap part (found_continues p s r need same) ∙ keeps-continue_incident s p r
    | inr differs ↦
        ap part (found_ends p s r need differs)
        ∙ keeps-open_if_unhealthy (end_incident s p r need) r
        ∙ keeps-end_incident s p r
  ]

  keeps-set_incident_if_need :
      (s : Incidents X) (r : Record X) → part (set_incident_if_need s r need) ≡ part s
  unfolding set_incident_if_need
  keeps-set_incident_if_need s r = elim (Bool-cases (status_eq r.status Status.aborted)) [
    | inl aborted ↦ rw aborted
    | inr live ↦
        ap part (set_incident_live s r need live)
        ∙ keeps-set_incident_found (search_last_incident s r.target.text r.time) s r
  ]

module _ {X : Type 0} where
  pub probe_history-set_incident :
      (s : Incidents X) (r : Record X) (need : Bool)
      → (set_incident_if_need s r need).probe_history ≡ s.probe_history
  probe_history-set_incident s r need =
      keeps-set_incident_if_need (λ s. s.probe_history) need
        (λ b s n rs. (notify_if_keeps (b && need) s n rs).3) (λ s heap next current history. refl) s
        r

  no_notice_off :
      (b : Bool) (s : Incidents X) (n : ℕ) (rs : List (Record X))
      → notify_if (b && false) s n rs ≡ s
  unfolding notify_if
  no_notice_off true s n rs = refl
  no_notice_off false s n rs = refl

  -- Without the callbacks, as when logs are restored, no handler is called and no incident counted.
  pub set_incident_quiet :
      (s : Incidents X) (r : Record X)
      → ((set_incident_if_need s r false).calls ≡ s.calls)
        × ((set_incident_if_need s r false).incident_count ≡ s.incident_count)
  set_incident_quiet s r = (
    keeps-set_incident_if_need (λ s. s.calls) false
        (λ b s n rs. ap (λ s. s.calls) (no_notice_off b s n rs))
        (λ s heap next current history. refl) s r,
    keeps-set_incident_if_need (λ s. s.incident_count) false
        (λ b s n rs. ap (λ s. s.incident_count) (no_notice_off b s n rs))
        (λ s heap next current history. refl) s r,
  )
