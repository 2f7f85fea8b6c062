-- ===== src/Store/SetIncident.antt =====
-- internal/store/store.go: `setIncidentIfNeed`.
pub mod Found
pub mod Pointers
pub mod Valid
pub mod Steps
pub mod Effect
pub mod Frame
pub mod Failure
pub mod Past
pub mod Keeps
use ayd.Common.{
  ℕ, suc, ◌+◌, Bool, true, false, not, ◌&&◌, ◌||◌, List, [], ◌∷◌, ◌++◌, Option, none, some, Bytes,
  bytes_eq, length, drop, ltb, ◌==◌, if◌then◌else◌, lookup, insert, delete,
}
use ayd.Api.Status.{Status, status_eq}
use ayd.Api.Record.{Time, Record}
use ayd.Store.Message.{is_same_incident_message}
use ayd.Store.Incident.{
  incident_history_len, zero_time, Incident, Call, Incidents, write, new_incident, records_of,
  last_after, search_last_incident,
}

-- `if len(s.incidentHistory) > INCIDENT_HISTORY_LEN { s.incidentHistory = s.incidentHistory[1:] }`
unfoldable pub trim_incidents : List ℕ → List ℕ
trim_incidents ps = if ltb incident_history_len (length ps) then drop 1 ps else ps

-- `if incident.StartsAt.After(r.Time) { incident.StartsAt = r.Time }`
unfoldable pub start_by : Incident → Time → Incident
start_by x t = if ltb t x.starts_at then record x { starts_at = t } else x

module _ {X : Type 0} where
  -- `for _, cb := range s.OnStatusChanged { cb(r) }`
  unfoldable pub kick : List ℕ → List (Record X) → List (Call X)
  kick [] rs = []
  kick (cb ∷ cbs) rs = each cb rs ++ kick cbs rs
    where
      each : ℕ → List (Record X) → List (Call X)
      each cb [] = []
      each cb (r ∷ rs) = record { handler = cb; argument = r } ∷ each cb rs

  -- The callbacks of one event: `s.incidentCount++` only where a new incident is caused.
  unfoldable pub notify : Incidents X → ℕ → List (Record X) → Incidents X
  unfolding kick
  notify s caused rs = record s {
    incident_count = s.incident_count + caused;
    calls = s.calls ++ kick s.on_status_changed rs;
  }

  unfoldable pub notify_if : Bool → Incidents X → ℕ → List (Record X) → Incidents X
  unfolding notify
  notify_if need s caused rs = if need then notify s caused rs else s

  -- The first record after `t`.
  unfoldable pub first_after : Time → List (Record X) → Option (Record X)
  first_after t [] = none
  first_after t (h ∷ hs) = if ltb t h.time then some h else first_after t hs

  abbrev end_of : Option (Record X) → Time
  end_of none = zero_time
  end_of (some h) = h.time

  -- The records that each handler gets for an incident that was over before it was reported.
  abbrev pub late_news : Record X → Option (Record X) → List (Record X)
  late_news r none = r ∷ []
  late_news r (some h) = if status_eq h.status Status.healthy then r ∷ h ∷ [] else r ∷ []

  -- `r.Status != api.StatusHealthy`: a new incident, into the history if later records are there.
  unfoldable pub open_incident : Incidents X → Record X → Bool → Incidents X
  unfolding last_after first_after notify_if write new_incident
  open_incident s r need =
      let records = records_of (lookup r.target.text s.probe_history) in
      let next = first_after r.time records in
      if last_after records r.time
      then notify_if need
          (record s {
            heap = write s.heap s.next (record (new_incident r) { ends_at = end_of next });
            next = suc s.next;
            incident_history = s.incident_history ++ s.next ∷ [];
          })
          1 (late_news r next)
      else notify_if need
          (record s {
            heap = write s.heap s.next (new_incident r);
            next = suc s.next;
            current_incidents = insert r.target.text s.next s.current_incidents;
          })
          1 (r ∷ [])

  -- The test for "continue of current incident, or old resolved incident".
  unfoldable pub continues : Incident → Record X → Bool
  continues x r =
      status_eq x.status r.status
      && is_same_incident_message x.message r.message
      && (x.ends_at == zero_time || ltb r.time x.ends_at)

  -- The incident at `p` ends with the record.
  unfoldable pub end_incident : Incidents X → ℕ → Record X → Bool → Incidents X
  unfolding start_by trim_incidents notify_if write
  end_incident s p r need =
      notify_if (status_eq r.status Status.healthy && need)
        (record s {
          heap = write s.heap p (record (start_by (s.heap p) r.time) { ends_at = r.time });
          current_incidents = delete r.target.text s.current_incidents;
          incident_history = trim_incidents (s.incident_history ++ p ∷ []);
        })
        0 (r ∷ [])

  unfoldable pub continue_incident : Incidents X → ℕ → Record X → Incidents X
  unfolding start_by write
  continue_incident s p r = record s {
    heap = write s.heap p (record (start_by (s.heap p) r.time) { message = r.message });
  }

  unfoldable pub open_if_unhealthy : Incidents X → Record X → Bool → Incidents X
  unfolding open_incident
  open_if_unhealthy s r need =
      if not (status_eq r.status Status.healthy) then open_incident s r need else s

  unfoldable pub set_incident_found : Option ℕ → Incidents X → Record X → Bool → Incidents X
  unfolding continues end_incident continue_incident open_if_unhealthy
  set_incident_found none s r need = open_if_unhealthy s r need
  set_incident_found (some p) s r need =
      if continues (s.heap p) r
      then continue_incident s p r
      else open_if_unhealthy (end_incident s p r need) r need

  -- `setIncidentIfNeed`
  unfoldable pub set_incident_if_need : Incidents X → Record X → Bool → Incidents X
  unfolding search_last_incident set_incident_found
  set_incident_if_need s r need =
      if status_eq r.status Status.aborted
      then s
      else set_incident_found (search_last_incident s r.target.text r.time) s r need
