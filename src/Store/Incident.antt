-- ===== src/Store/Incident.antt =====
-- internal/store/incident.go and the incidents of store.go. Incidents are shared by pointers: the
-- state holds them in a heap, and the maps and lists hold addresses.
use ayd.Common.{
  ℕ, Bool, false, ◌&&◌, ◌||◌, List, [], ◌∷◌, Option, none, some, Bytes, bytes_eq, ltb, ◌==◌,
  get_last?, if◌then◌else◌, lookup,
}
use mathlib.Core.List.{reverse}
use ayd.Api.Status.{Status}
use ayd.Api.Record.{Time, Url, Record}
use ayd.Store.History.{ProbeHistory, ProbeHistoryMap}

abbrev pub incident_history_len : ℕ
incident_history_len = 20

-- The zero `time.Time`.
abbrev pub zero_time : Time
zero_time = 0

-- lib-ayd's `Incident`.
pub record Incident : Type 0 where
  pub target : Url
  pub status : Status
  pub message : Bytes
  pub starts_at : Time
  pub ends_at : Time

-- A call of a handler of `OnStatusChanged`.
pub record Call (X : Type 0) : Type 0 where
  pub handler : ℕ
  pub argument : Record X

-- The part of `Store` that `setIncidentIfNeed` reads and writes. Handlers are numbered, and their
-- calls are listed in order.
pub record Incidents (X : Type 0) : Type 0 where
  pub probe_history : ProbeHistoryMap X
  pub heap : ℕ → Incident
  pub next : ℕ
  pub current_incidents : List (Bytes × ℕ)
  pub incident_history : List ℕ
  pub on_status_changed : List ℕ
  pub incident_count : ℕ
  pub calls : List (Call X)

-- A write through a pointer.
unfoldable pub write : (ℕ → Incident) → ℕ → Incident → ℕ → Incident
write heap p v q = if q == p then v else heap q

-- `cur, ok := ...; if ok { return cur }`
abbrev pub or_else : Option ℕ → Option ℕ → Option ℕ
or_else (some cur) past = some cur
or_else none past = past

module _ {X : Type 0} where
  unfoldable pub new_incident : Record X → Incident
  new_incident r = record {
    target = r.target;
    status = r.status;
    message = r.message;
    starts_at = r.time;
    ends_at = zero_time;
  }

  abbrev pub records_of : Option (ProbeHistory X) → List (Record X)
  records_of none = []
  records_of (some hs) = hs.records

  -- `hok && len(hs.Records) > 0 && hs.Records[len(hs.Records)-1].Time.Before(t)`
  unfoldable pub last_before : List (Record X) → Time → Bool
  last_before records t = elim (get_last? records) [ none ↦ false | some h ↦ ltb h.time t ]

  -- `... .Time.After(t)`
  unfoldable pub last_after : List (Record X) → Time → Bool
  last_after records t = elim (get_last? records) [ none ↦ false | some h ↦ ltb t h.time ]

  -- The inner loop of `searchLastIncident`, over the records from the last: whether the last record
  -- before the start of the incident is before `t`.
  unfoldable pub starts_after_gap : Time → Time → List (Record X) → Bool
  starts_after_gap start t [] = false
  starts_after_gap start t (h ∷ earlier) =
      let rest = starts_after_gap start t earlier in if ltb h.time start then ltb h.time t else rest

  -- Whether the loop over `incidentHistory` returns at this incident.
  unfoldable pub is_last_incident : List (Record X) → Bytes → Time → Incident → Bool
  unfolding starts_after_gap
  is_last_incident records target t x =
      bytes_eq x.target.text target
      && ltb t x.ends_at
      && (ltb x.starts_at t || starts_after_gap x.starts_at t (reverse records))

  -- The loop over `incidentHistory`, which is read from its end.
  unfoldable pub search_history :
      (ℕ → Incident) → List (Record X) → Bytes → Time → List ℕ → Option ℕ
  unfolding is_last_incident
  search_history heap records target t [] = none
  search_history heap records target t (p ∷ older) =
      if is_last_incident records target t (heap p)
      then some p
      else search_history heap records target t older

  -- What `searchLastIncident` finds where the target has no current incident.
  unfoldable pub search_past : Incidents X → Bytes → Time → Option ℕ
  unfolding search_history last_before
  search_past s target t =
      let records = records_of (lookup target s.probe_history) in
      if last_before records t
      then none
      else search_history s.heap records target t (reverse s.incident_history)

  unfoldable pub search_last_incident : Incidents X → Bytes → Time → Option ℕ
  unfolding search_past
  search_last_incident s target t =
      or_else (lookup target s.current_incidents) (search_past s target t)
