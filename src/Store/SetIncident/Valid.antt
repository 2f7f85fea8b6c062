-- ===== src/Store/SetIncident/Valid.antt =====
-- internal/store/store.go: the pointers to incidents stay sound under `setIncidentIfNeed`.
use mathlib.Core.Path.{subst}
use ayd.Common.{
  ℕ, suc, ◌<◌, Bool, true, false, ◌≡◌, ◌≢◌, refl, sym, ap, ◌∙◌, inl, inr, List, [], ◌∷◌, ◌++◌,
  Option, none, some, Bytes, bytes_eq, bytes_eq_iff, arith, All-append, Bool-cases, lookup, insert,
  lookup-insert,
}
use ayd.Api.Status.{Status, status_eq}
use ayd.Api.Record.{Time, Record}
use ayd.Store.Incident.{
  Incident, Incidents, write, new_incident, records_of, last_after, search_last_incident,
}
use ayd.Store.SetIncident.{
  notify_if, open_incident, start_by, continues, end_incident, continue_incident, open_if_unhealthy,
  set_incident_found, set_incident_if_need,
}
use ayd.Store.SetIncident.Pointers.{
  write_self, Below, Apart, IsCurrent, IsSound, IsValid, All-weaken, All-trim_incidents,
  start_by_keeps, delete_inv, IsCurrent-write_ne, IsCurrent-write,
}
use ayd.Store.SetIncident.Found.{search_last_incident_found}

lt_ne : (a b : ℕ) → a < b → a ≢ b
lt_ne a b h e = omega arith

module _ {X : Type 0} where
  pub notify_if-IsValid :
      (need : Bool) (s : Incidents X) (caused : ℕ) (rs : List (Record X))
      → IsValid s
      → IsValid (notify_if need s caused rs)
  unfolding notify_if
  notify_if-IsValid true s caused rs v = v
  notify_if-IsValid false s caused rs v = v

  continue_incident-IsValid :
      (s : Incidents X) (p : ℕ) (r : Record X) → IsValid s → IsValid (continue_incident s p r)
  unfolding continue_incident
  continue_incident-IsValid s p r v =
      let (et, es, ee) = start_by_keeps (s.heap p) r.time in
      record {
        current_sound = λ k q h.
            IsCurrent-write p (record (start_by (s.heap p) r.time) { message = r.message }) et es ee
              (v.current_sound k q h);
        past_allocated = v.past_allocated;
      }

  end_incident-IsValid :
      (s : Incidents X) (p : ℕ) (r : Record X) (need : Bool)
      → IsValid s
      → p < s.next
      → ((k : Bytes) (q : ℕ) → k ≢ r.target.text → lookup k s.current_incidents ≡ some q → q ≢ p)
      → IsValid (end_incident s p r need)
  unfolding end_incident
  end_incident-IsValid s p r need v low others = notify_if-IsValid _ _ 0 (r ∷ []) (record {
    current_sound = λ k q h.
        let (ne, was) = delete_inv r.target.text k s.current_incidents h in
        let c = v.current_sound k q was in
        let apart = others k q ne was in
        let c' =
          IsCurrent-write_ne p (record (start_by (s.heap p) r.time) { ends_at = r.time }) apart c in
        record {
          allocated = c'.allocated;
          keyed = c'.keyed;
          not_ended = c'.not_ended;
          unhealthy = c'.unhealthy;
          apart =
              All-trim_incidents (Apart q) _ (
                All-append (Apart q) s.incident_history (p ∷ []) c.apart
                  ((λ e. apart (sym e)), tt));
        };
    past_allocated =
        All-trim_incidents (Below s.next) _
          (All-append (Below s.next) s.incident_history (p ∷ []) v.past_allocated (low, tt));
  })

  open_late-IsValid :
      (s : Incidents X) (x : Incident)
      → IsValid s
      → IsSound
          (write s.heap s.next x)
          (suc s.next)
          s.current_incidents
          (s.incident_history ++ s.next ∷ [])
  open_late-IsValid s x v = record {
    current_sound = λ k q h.
        let c = v.current_sound k q h in
        let ne : q ≢ s.next = lt_ne q s.next c.allocated in
        let c' = IsCurrent-write_ne s.next x ne c in
        record {
          allocated = omega (arith, c.allocated);
          keyed = c'.keyed;
          not_ended = c'.not_ended;
          unhealthy = c'.unhealthy;
          apart =
              All-append (Apart q) s.incident_history (s.next ∷ []) c.apart ((λ e. ne (sym e)), tt);
        };
    past_allocated =
        All-append (Below (suc s.next)) s.incident_history (s.next ∷ [])
          (All-weaken (Below s.next) (Below (suc s.next)) s.incident_history (λ q h. omega arith)
            v.past_allocated)
          (omega arith, tt);
  }

  open_now-IsValid :
      (s : Incidents X) (r : Record X)
      → status_eq r.status Status.healthy ≡ false
      → IsValid s
      → IsSound
          (write s.heap s.next (new_incident r))
          (suc s.next)
          (insert r.target.text s.next s.current_incidents)
          s.incident_history
  unfolding new_incident
  open_now-IsValid s r sick v = record {
    current_sound = λ k q h. elim (Bool-cases (bytes_eq r.target.text k)) [
      | inl same ↦
          let eq : s.next ≡ q =
            ground (arith, lookup-insert r.target.text k s.next s.current_incidents) in
          subst (IsCurrent (write s.heap s.next (new_incident r)) (suc s.next) s.incident_history k)
            eq
            (record {
              allocated = omega arith;
              keyed =
                  ap (λ x. x.target.text) (write_self s.heap s.next (new_incident r))
                  ∙ (bytes_eq_iff r.target.text k).0 same;
              not_ended = ap (λ x. x.ends_at) (write_self s.heap s.next (new_incident r));
              unhealthy =
                  ap (λ x. status_eq x.status Status.healthy)
                    (write_self s.heap s.next (new_incident r))
                  ∙ sick;
              apart =
                  All-weaken (Below s.next) (Apart s.next) s.incident_history
                    (λ x h. lt_ne x s.next h) v.past_allocated;
            })
      | inr other ↦
          let c =
            v.current_sound k q
              (ground (arith, lookup-insert r.target.text k s.next s.current_incidents)) in
          let c' = IsCurrent-write_ne s.next (new_incident r) (lt_ne q s.next c.allocated) c in
          record {
            allocated = omega (arith, c.allocated);
            keyed = c'.keyed;
            not_ended = c'.not_ended;
            unhealthy = c'.unhealthy;
            apart = c.apart;
          }
    ];
    past_allocated =
        All-weaken (Below s.next) (Below (suc s.next)) s.incident_history (λ q h. omega arith)
          v.past_allocated;
  }

  open_incident-IsValid :
      (s : Incidents X) (r : Record X) (need : Bool)
      → status_eq r.status Status.healthy ≡ false
      → IsValid s
      → IsValid (open_incident s r need)
  unfolding open_incident
  open_incident-IsValid s r need sick v =
      elim (Bool-cases (last_after (records_of (lookup r.target.text s.probe_history)) r.time)) [
        | inl late ↦ rw late (notify_if-IsValid need _ 1 _ (open_late-IsValid s _ v))
        | inr now ↦ rw now (notify_if-IsValid need _ 1 _ (open_now-IsValid s r sick v))
      ]

  open_if_unhealthy-IsValid :
      (s : Incidents X) (r : Record X) (need : Bool)
      → IsValid s
      → IsValid (open_if_unhealthy s r need)
  unfolding open_if_unhealthy
  open_if_unhealthy-IsValid s r need v = elim (Bool-cases (status_eq r.status Status.healthy)) [
    | inl well ↦ rw well v
    | inr sick ↦ rw sick (open_incident-IsValid s r need sick v)
  ]

  -- Only current incidents of other targets are kept by `end_incident`: they are not at `p`.
  found_apart :
      (s : Incidents X) (target : Bytes) (t : Time) (p : ℕ)
      → IsValid s
      → search_last_incident s target t ≡ some p
      → (p < s.next)
        × ((k : Bytes) (q : ℕ) → k ≢ target → lookup k s.current_incidents ≡ some q → q ≢ p)
  found_apart s target t p v h = (
    elim (search_last_incident_found (Below s.next) s target t p v.past_allocated h) [
      | inl cur ↦ (v.current_sound target p cur).allocated
      | inr (_, past) ↦ past
    ],
    λ k q ne other same.
        let c = v.current_sound k q other in
        elim (search_last_incident_found (Apart q) s target t p c.apart h) [
          | inl cur ↦ ne (
              sym c.keyed
              ∙ ap (λ x. (s.heap x).target.text) same
              ∙ (v.current_sound target p cur).keyed)
          | inr (_, past) ↦ past (sym same)
        ],
  )

  set_incident_found-IsValid :
      (o : Option ℕ) (s : Incidents X) (r : Record X) (need : Bool)
      → IsValid s
      → search_last_incident s r.target.text r.time ≡ o
      → IsValid (set_incident_found o s r need)
  unfolding set_incident_found
  set_incident_found-IsValid none s r need v h = open_if_unhealthy-IsValid s r need v
  set_incident_found-IsValid (some p) s r need v h = elim (Bool-cases (continues (s.heap p) r)) [
    | inl same ↦ rw same (continue_incident-IsValid s p r v)
    | inr differs ↦
        let (low, apart) = found_apart s r.target.text r.time p v h in
        rw differs (
          open_if_unhealthy-IsValid (end_incident s p r need) r need
            (end_incident-IsValid s p r need v low apart))
  ]

  -- Whatever record is reported to a sound state, in or out of the order of time: each current
  -- incident stays an unhealthy one of its own target that has not ended and is not in the history,
  -- and no pointer dangles.
  pub set_incident_if_need-IsValid :
      (s : Incidents X) (r : Record X) (need : Bool)
      → IsValid s
      → IsValid (set_incident_if_need s r need)
  unfolding set_incident_if_need
  set_incident_if_need-IsValid s r need v = elim (Bool-cases (status_eq r.status Status.aborted)) [
    | inl aborted ↦ rw aborted v
    | inr other ↦
        rw other
          (set_incident_found-IsValid (search_last_incident s r.target.text r.time) s r need v refl)
  ]
