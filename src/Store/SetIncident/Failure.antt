-- ===== src/Store/SetIncident/Failure.antt =====
-- internal/store/store.go: a failure in the order of time is the current incident of its target.
use mathlib.Core.Path.{subst}
use ayd.Common.{
  ℕ, suc, Bool, false, ◌≡◌, refl, sym, ap, ◌∙◌, inl, inr, [], ◌∷◌, Option, none, some,
  bytes_eq_refl, if◌then◌else◌, Bool-cases, lookup, insert, lookup-insert, arith,
}
use ayd.Api.Status.{Status, status_eq, status_eq_iff}
use ayd.Api.Record.{Record}
use ayd.Store.Incident.{
  Incident, Incidents, write, new_incident, records_of, last_after, search_past,
  search_last_incident, or_else,
}
use ayd.Store.SetIncident.{
  open_incident, start_by, continues, end_incident, continue_incident, set_incident_found,
  set_incident_if_need,
}
use ayd.Store.SetIncident.Pointers.{write_self, start_by_keeps}
use ayd.Store.SetIncident.Steps.{
  notify_if_keeps, set_incident_live, found_none, found_continues, found_ends,
  open_if_unhealthy_sick, continues_status, or_else_cases,
}

none_ne_some : {p : ℕ} → none ≡ some p → ⊥
none_ne_some e = ground arith

module _ {X : Type 0} where
  -- The target of the record has a current incident, with the status and message of the record.
  pub record IsOpen (s : Incidents X) (r : Record X) : Type 0 where
    pub address : ℕ
    pub current : lookup r.target.text s.current_incidents ≡ some address
    pub same_status : (s.heap address).status ≡ r.status
    pub same_message : (s.heap address).message ≡ r.message

  later_records : Incidents X → Record X → Bool
  later_records s r = last_after (records_of (lookup r.target.text s.probe_history)) r.time

  open_incident-IsOpen :
      (s : Incidents X) (r : Record X) (need : Bool)
      → last_after (records_of (lookup r.target.text s.probe_history)) r.time ≡ false
      → IsOpen (open_incident s r need) r
  unfolding open_incident new_incident
  open_incident-IsOpen s r need h =
      let opened : Incidents X = record s {
        heap = write s.heap s.next (new_incident r);
        next = suc s.next;
        current_incidents = insert r.target.text s.next s.current_incidents;
      } in
      let (current, heap, _, _) = notify_if_keeps need opened 1 (r ∷ []) in
      let at = ap (λ f. f s.next) heap ∙ write_self s.heap s.next (new_incident r) in
      rw h (record {
        address = s.next;
        current =
            ap (lookup r.target.text) current
            ∙ lookup-insert r.target.text r.target.text s.next s.current_incidents
            ∙ ap (λ b. if b then some s.next else lookup r.target.text s.current_incidents)
                (bytes_eq_refl r.target.text);
        same_status = ap (λ x. x.status) at;
        same_message = ap (λ x. x.message) at;
      })

  continue_incident-IsOpen :
      (s : Incidents X) (p : ℕ) (r : Record X)
      → lookup r.target.text s.current_incidents ≡ some p
      → (s.heap p).status ≡ r.status
      → IsOpen (continue_incident s p r) r
  unfolding continue_incident
  continue_incident-IsOpen s p r h e =
      let x : Incident = record (start_by (s.heap p) r.time) { message = r.message } in
      let at = write_self s.heap p x in
      record {
        address = p;
        current = h;
        same_status = ap (λ x. x.status) at ∙ (start_by_keeps (s.heap p) r.time).1 ∙ e;
        same_message = ap (λ x. x.message) at;
      }

  probe_history-end_incident :
      (s : Incidents X) (p : ℕ) (r : Record X) (need : Bool)
      → (end_incident s p r need).probe_history ≡ s.probe_history
  unfolding end_incident
  probe_history-end_incident s p r need = (notify_if_keeps _ _ 0 (r ∷ [])).3

  found-IsOpen :
      (o : Option ℕ) (s : Incidents X) (r : Record X) (need : Bool)
      → status_eq r.status Status.healthy ≡ false
      → last_after (records_of (lookup r.target.text s.probe_history)) r.time ≡ false
      → search_past s r.target.text r.time ≡ none
      → or_else (lookup r.target.text s.current_incidents) (search_past s r.target.text r.time) ≡ o
      → IsOpen (set_incident_found o s r need) r
  found-IsOpen none s r need sick last past e =
      subst (λ x. IsOpen x r) (sym (found_none s r need ∙ open_if_unhealthy_sick s r need sick))
        (open_incident-IsOpen s r need last)
  found-IsOpen (some p) s r need sick last past e = elim (Bool-cases (continues (s.heap p) r)) [
    | inl same ↦
        subst (λ x. IsOpen x r) (sym (found_continues p s r need same))
          (continue_incident-IsOpen s p r
            (elim (or_else_cases (lookup r.target.text s.current_incidents)
              (search_past s r.target.text r.time) p e) [
                | inl cur ↦ cur
                | inr (_, found) ↦ absurd (none_ne_some (sym past ∙ found))
              ])
            ((status_eq_iff (s.heap p).status r.status).0 (continues_status (s.heap p) r same)))
    | inr differs ↦
        subst (λ x. IsOpen x r)
          (sym (
            found_ends p s r need differs
            ∙ open_if_unhealthy_sick (end_incident s p r need) r need sick))
          (open_incident-IsOpen (end_incident s p r need) r need (
            ap (λ h. last_after (records_of (lookup r.target.text h)) r.time)
              (probe_history-end_incident s p r need)
            ∙ last))
  ]

  -- A record that is neither healthy nor aborted, with no later record of its target and no ended
  -- incident around it: afterwards the target has a current incident with the record's status and
  -- message, whether one went on, one ended and another began, or there was none.
  pub set_incident_opens :
      (s : Incidents X) (r : Record X) (need : Bool)
      → status_eq r.status Status.healthy ≡ false
      → status_eq r.status Status.aborted ≡ false
      → last_after (records_of (lookup r.target.text s.probe_history)) r.time ≡ false
      → search_past s r.target.text r.time ≡ none
      → IsOpen (set_incident_if_need s r need) r
  unfolding search_last_incident
  set_incident_opens s r need sick live last past =
      subst (λ x. IsOpen x r) (sym (set_incident_live s r need live))
        (found-IsOpen (search_last_incident s r.target.text r.time) s r need sick last past refl)
