-- ===== src/Store/SetIncident/Frame.antt =====
-- internal/store/store.go: what `setIncidentIfNeed` leaves alone of the other targets.
use ayd.Common.{
  ℕ, Bool, true, false, ◌≡◌, ◌≢◌, refl, sym, ap, ◌∙◌, inl, inr, List, [], ◌∷◌, Option, none, some,
  Bytes, bytes_eq_ne, Bool-cases, lookup, arith,
}
use ayd.Api.Status.{Status, status_eq}
use ayd.Api.Record.{Record}
use ayd.Store.Incident.{Incidents, write, records_of, last_after, search_last_incident}
use ayd.Store.SetIncident.{
  notify_if, open_incident, start_by, continues, end_incident, continue_incident, open_if_unhealthy,
  set_incident_found, set_incident_if_need,
}
use ayd.Store.SetIncident.Found.{search_last_incident_found}
use ayd.Store.SetIncident.Pointers.{IsValid, Apart, write_ne}
use ayd.Store.SetIncident.Steps.{
  lookup-set_incident_found, set_incident_live, found_continues, found_ends, found_none,
  open_if_unhealthy_well, open_if_unhealthy_sick, notify_if_keeps,
}

module _ {X : Type 0} where
  heap-open_incident :
      (s : Incidents X) (r : Record X) (need : Bool) (q : ℕ)
      → q ≢ s.next
      → (open_incident s r need).heap q ≡ s.heap q
  unfolding open_incident
  heap-open_incident s r need q ne =
      elim (Bool-cases (last_after (records_of (lookup r.target.text s.probe_history)) r.time)) [
        | inl late ↦
            rw late (ap (λ h. h q) (notify_if_keeps need _ 1 _).1 ∙ write_ne s.heap s.next q _ ne)
        | inr now ↦
            rw now (ap (λ h. h q) (notify_if_keeps need _ 1 _).1 ∙ write_ne s.heap s.next q _ ne)
      ]

  heap-open_if_unhealthy :
      (s : Incidents X) (r : Record X) (need : Bool) (q : ℕ)
      → q ≢ s.next
      → (open_if_unhealthy s r need).heap q ≡ s.heap q
  heap-open_if_unhealthy s r need q ne = elim (Bool-cases (status_eq r.status Status.healthy)) [
    | inl well ↦ ap (λ x. x.heap q) (open_if_unhealthy_well s r need well)
    | inr sick ↦
        ap (λ x. x.heap q) (open_if_unhealthy_sick s r need sick) ∙ heap-open_incident s r need q ne
  ]

  next-notify_if :
      (need : Bool) (s : Incidents X) (n : ℕ) (rs : List (Record X))
      → (notify_if need s n rs).next ≡ s.next
  unfolding notify_if
  next-notify_if true s n rs = refl
  next-notify_if false s n rs = refl

  heap-continue_incident :
      (s : Incidents X) (p : ℕ) (r : Record X) (q : ℕ)
      → q ≢ p
      → (continue_incident s p r).heap q ≡ s.heap q
  unfolding continue_incident
  heap-continue_incident s p r q ne = write_ne s.heap p q _ ne

  next-end_incident :
      (s : Incidents X) (p : ℕ) (r : Record X) (need : Bool)
      → (end_incident s p r need).next ≡ s.next
  unfolding end_incident
  next-end_incident s p r need = next-notify_if _ _ 0 (r ∷ [])

  heap-end_incident :
      (s : Incidents X) (p : ℕ) (r : Record X) (need : Bool) (q : ℕ)
      → q ≢ p
      → (end_incident s p r need).heap q ≡ s.heap q
  unfolding end_incident
  heap-end_incident s p r need q ne =
      let ended = record (start_by (s.heap p) r.time) { ends_at = r.time } in
      let same : (end_incident s p r need).heap ≡ write s.heap p ended =
        (notify_if_keeps _ _ 0 (r ∷ [])).1 in
      ap (λ h. h q) same ∙ write_ne s.heap p q ended ne

  -- The incident at an address is the same after a record that neither found it nor had it made.
  heap-set_incident_found :
      (o : Option ℕ) (s : Incidents X) (r : Record X) (need : Bool) (q : ℕ)
      → q ≢ s.next
      → ((p : ℕ) → o ≡ some p → q ≢ p)
      → (set_incident_found o s r need).heap q ≡ s.heap q
  heap-set_incident_found none s r need q new other =
      ap (λ x. x.heap q) (found_none s r need) ∙ heap-open_if_unhealthy s r need q new
  heap-set_incident_found (some p) s r need q new other =
      elim (Bool-cases (continues (s.heap p) r)) [
        | inl same ↦
            ap (λ x. x.heap q) (found_continues p s r need same)
            ∙ heap-continue_incident s p r q (other p refl)
        | inr differs ↦
            ap (λ x. x.heap q) (found_ends p s r need differs)
            ∙ heap-open_if_unhealthy (end_incident s p r need) r need q
                (λ e. new (e ∙ next-end_incident s p r need))
            ∙ heap-end_incident s p r need q (other p refl)
      ]

  -- The incident that a record finds is not the current one of another target.
  found_other :
      (s : Incidents X) (r : Record X) (k : Bytes) (q p : ℕ)
      → IsValid s
      → k ≢ r.target.text
      → lookup k s.current_incidents ≡ some q
      → search_last_incident s r.target.text r.time ≡ some p
      → q ≢ p
  found_other s r k q p v ne cur found same =
      let c = v.current_sound k q cur in
      elim (search_last_incident_found (Apart q) s r.target.text r.time p c.apart found) [
        | inl here ↦
            let d = v.current_sound r.target.text p here in
            ne (sym c.keyed ∙ ap (λ x. (s.heap x).target.text) same ∙ d.keyed)
        | inr (_, past) ↦ past (sym same)
      ]

  lookup-set_incident_if_need :
      (s : Incidents X) (r : Record X) (need : Bool) (k : Bytes)
      → k ≢ r.target.text
      → lookup k (set_incident_if_need s r need).current_incidents ≡ lookup k s.current_incidents
  unfolding set_incident_if_need
  lookup-set_incident_if_need s r need k ne =
      elim (Bool-cases (status_eq r.status Status.aborted)) [
        | inl aborted ↦ rw aborted
        | inr live ↦
            ap (λ x. lookup k x.current_incidents) (set_incident_live s r need live)
            ∙ lookup-set_incident_found (search_last_incident s r.target.text r.time) s r need k
                (bytes_eq_ne r.target.text k (λ e. ne (sym e)))
      ]

  heap-set_incident_if_need :
      (s : Incidents X) (r : Record X) (need : Bool) (k : Bytes) (q : ℕ)
      → IsValid s
      → k ≢ r.target.text
      → lookup k s.current_incidents ≡ some q
      → (set_incident_if_need s r need).heap q ≡ s.heap q
  unfolding set_incident_if_need
  heap-set_incident_if_need s r need k q v ne cur =
      elim (Bool-cases (status_eq r.status Status.aborted)) [
        | inl aborted ↦ rw aborted
        | inr live ↦
            ap (λ x. x.heap q) (set_incident_live s r need live)
            ∙ heap-set_incident_found (search_last_incident s r.target.text r.time) s r need q
                (λ e. omega (arith, (v.current_sound k q cur).allocated, e))
                (λ p found. found_other s r k q p v ne cur found)
      ]

  -- In a sound state a record has no effect on the current incident of any other target: which
  -- incident that is, and every field of it, stays as it was, and a target without one has none.
  pub set_incident_if_need_frame :
      (s : Incidents X) (r : Record X) (need : Bool) (k : Bytes)
      → IsValid s
      → k ≢ r.target.text
      → (lookup k (set_incident_if_need s r need).current_incidents ≡ lookup k s.current_incidents)
        × ((q : ℕ)
            → lookup k s.current_incidents ≡ some q
            → (set_incident_if_need s r need).heap q ≡ s.heap q)
  set_incident_if_need_frame s r need k v ne = (
    lookup-set_incident_if_need s r need k ne,
    λ q cur. heap-set_incident_if_need s r need k q v ne cur,
  )
