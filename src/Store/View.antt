-- ===== src/Store/View.antt =====
-- internal/store/store.go: the views that are exported, and the order of incident.go in which the
-- current incidents are. `sort.Sort` is an insertion sort.
pub mod Order
use ayd.Common.{ℕ, Bool, true, false, not, List, [], ◌∷◌, Bytes, ltb, ◌==◌, if◌then◌else◌}
use ayd.Store.History.{ProbeReport}
use ayd.Store.Incident.{Incident, Incidents}
use ayd.Store.Report.{active_incidents, incident_history_view, probe_reports}
use ayd.Scheme.Search.{at_most}

-- `byIncidentCaused.Less`
unfoldable pub less : Incident → Incident → Bool
unfolding at_most
less x y =
    if x.starts_at == y.starts_at
    then not (at_most y.target.text x.target.text)
    else ltb x.starts_at y.starts_at

unfoldable pub insert_incident : Incident → List Incident → List Incident
unfolding less
insert_incident x [] = x ∷ []
insert_incident x (y ∷ ys) =
    let rest = insert_incident x ys in if less x y then x ∷ y ∷ ys else y ∷ rest

-- `sort.Sort(byIncidentCaused(xs))`
unfoldable pub sort_incidents : List Incident → List Incident
unfolding insert_incident
sort_incidents [] = []
sort_incidents (x ∷ xs) = insert_incident x (sort_incidents xs)

abbrev pub addresses : List (Bytes × ℕ) → List ℕ
addresses [] = []
addresses ((k, p) ∷ m) = p ∷ addresses m

module _ {X : Type 0} where
  -- The active ones of `currentIncidents`, in the order of the map.
  unfoldable pub active_current : Incidents X → List Incident
  unfolding active_incidents
  active_current s = active_incidents s (addresses s.current_incidents)

  -- `currentIncidentsWithoutLock`
  unfoldable pub current_incidents_view : Incidents X → List Incident
  unfolding active_current sort_incidents
  current_incidents_view s = sort_incidents (active_current s)

-- `api.Report`, without the name and the clock.
pub record Report (X : Type 0) : Type 0 where
  pub probe_history : List (Bytes × ProbeReport X)
  pub current_incidents : List Incident
  pub incident_history : List Incident

module _ {X : Type 0} where
  -- `MakeReport`
  unfoldable pub make_report : Incidents X → ℕ → Report X
  unfolding current_incidents_view
  make_report s probe_history_length = record {
    probe_history = probe_reports s.probe_history probe_history_length;
    current_incidents = current_incidents_view s;
    incident_history = incident_history_view s;
  }
