-- ===== src/Store/Report.antt =====
-- internal/store/store.go: `Report`, the activation of targets, and the views that are exported.
pub mod Valid
use ayd.Common.{
  ℕ, Bool, true, false, not, ◌&&◌, ◌||◌, List, [], ◌∷◌, ◌++◌, Option, none, some, Bytes, bytes_eq,
  codes, ltb, ◌==◌, if◌then◌else◌, lookup, insert,
}
use mathlib.Core.List.{reverse}
use ayd.Api.Record.{Time, Url, Record}
use ayd.Store.History
use ayd.Store.History.{
  ProbeHistory, ProbeHistoryMap, ProbeReport, probe_history_len, add_source, remove_source,
  is_active, target_is_active, make_report,
}
use ayd.Store.Incident.{Incident, Incidents}
use ayd.Store.SetIncident.{set_incident_if_need}

-- `Store`, with what has been sent to the writer. The lock is held throughout each operation, so an
-- operation is one step.
pub record Store (X : Type 0) : Type 0 where
  pub state : Incidents X
  pub written : List (Record X)

abbrev is_line_end : ℕ → Bool
is_line_end c = c == b'\r' || c == b'\n'

unfoldable pub trim_left : Bytes → Bytes
trim_left [] = []
trim_left (c ∷ s) = let rest = trim_left s in if is_line_end c then rest else c ∷ s

-- `strings.Trim(s, "\r\n")`
unfoldable pub trim : Bytes → Bytes
unfolding trim_left
trim s = reverse (trim_left (reverse (trim_left s)))

-- `r.Target.Scheme != "alert" && r.Target.Scheme != "ayd"`
unfoldable pub is_recorded : Url → Bool
unfolding bytes_eq
is_recorded u = not (bytes_eq u.scheme (codes "alert")) && not (bytes_eq u.scheme (codes "ayd"))

module _ {X : Type 0} where
  -- What `Report` and `restoreOneFile` do under the lock.
  unfoldable pub record_history : Incidents X → Url → Record X → Bool → Incidents X
  record_history s source r need =
      let s' = set_incident_if_need s r need in
      record s' { probe_history = History.append s'.probe_history source r }

  -- `Report`
  unfoldable pub report : Store X → Url → Record X → Store X
  unfolding record_history
  report s source r =
      let r' : Record X = record r { message = trim r.message } in
      record {
        state = if is_recorded r.target then record_history s.state source r' true else s.state;
        written = s.written ++ r' ∷ [];
      }

  abbrev or_new : Option (ProbeHistory X) → Url → ProbeHistory X
  or_new (some ph) target = ph
  or_new none target = record { target = target; records = []; sources = [] }

  -- `ActivateTarget`
  unfoldable pub activate_target : ProbeHistoryMap X → Url → Url → ProbeHistoryMap X
  activate_target hs source target =
      insert target.text (add_source (or_new (lookup target.text hs) target) source) hs

  abbrev deactivated : ProbeHistoryMap X → Url → Bytes → Option (ProbeHistory X) → ProbeHistoryMap X
  deactivated hs source t none = hs
  deactivated hs source t (some x) = insert t (remove_source x source) hs

  -- `DeactivateTarget`
  unfoldable pub deactivate_target : ProbeHistoryMap X → Url → List Url → ProbeHistoryMap X
  deactivate_target hs source [] = hs
  deactivate_target hs source (t ∷ targets) =
      deactivate_target (deactivated hs source t.text (lookup t.text hs)) source targets

  -- `incidentHistoryWithoutLock`, and `currentIncidentsWithoutLock` before it sorts.
  unfoldable pub active_incidents : Incidents X → List ℕ → List Incident
  active_incidents s [] = []
  active_incidents s (p ∷ ps) =
      let rest = active_incidents s ps in
      if target_is_active s.probe_history (s.heap p).target then s.heap p ∷ rest else rest

  unfoldable pub incident_history_view : Incidents X → List Incident
  unfolding active_incidents
  incident_history_view s = active_incidents s s.incident_history

  -- The active entries of `MakeReport` and of `ProbeHistory` before it sorts.
  unfoldable pub probe_reports : ProbeHistoryMap X → ℕ → List (Bytes × ProbeReport X)
  unfolding make_report is_active
  probe_reports [] len = []
  probe_reports ((k, v) ∷ hs) len =
      let rest = probe_reports hs len in if is_active v then (k, make_report v len) ∷ rest else rest
