-- ===== src/Store/Report/Valid.antt =====
-- internal/store/store.go: the reports keep the history and the incidents sound.
use mathlib.Core.Path.{subst}
use mathlib.Core.Bool.{false≢true}
use ayd.Common.{
  Bool, true, false, ◌≡◌, refl, sym, ap, ◌∙◌, [], ◌∷◌, ◌++◌, Option, none, some, bytes_eq_refl,
  Bool-cases, inl, inr, lookup, lookup-insert, All-insert, All-lookup, arith,
}
use ayd.Api.Record.{Url, Record}
use ayd.Store.History.{ProbeHistory, ProbeHistoryMap, entry_is_active, target_is_active, add_source}
use ayd.Store.History.Valid.{
  append-IsValid, append_frame, add_source-IsValidEntry, IsValidEntry, add_source-is_active,
}
use ayd.Store.History.Valid as HistoryValid
use ayd.Store.Incident.{Incidents}
use ayd.Store.SetIncident.{set_incident_if_need}
use ayd.Store.SetIncident.Pointers.{IsSound}
use ayd.Store.SetIncident.Pointers as Pointers
use ayd.Store.SetIncident.Valid.{set_incident_if_need-IsValid}
use ayd.Store.SetIncident.Keeps.{probe_history-set_incident}
use ayd.Store.Report.{Store, record_history, report, is_recorded, activate_target, trim, or_new}

module _ {X : Type 0} where
  -- The history of every target is in order and within its limit, and the incidents are sound.
  pub record IsValid (s : Incidents X) : Type 0 where
    pub history : HistoryValid.IsValid s.probe_history
    pub incidents : Pointers.IsValid s

  pub record_history-IsValid :
      (s : Incidents X) (source : Url) (r : Record X) (need : Bool)
      → IsValid s
      → IsValid (record_history s source r need)
  unfolding record_history
  record_history-IsValid s source r need v = record {
    history =
        append-IsValid (set_incident_if_need s r need).probe_history source r
          (subst HistoryValid.IsValid (sym (probe_history-set_incident s r need)) v.history);
    incidents = set_incident_if_need-IsValid s r need v.incidents;
  }

  -- `Report` keeps a sound store sound. The target of the record is active afterwards, or the state
  -- is untouched where the scheme is that of alerts or of Ayd itself; and the record, its message
  -- trimmed, is sent to the writer.
  pub report-IsValid :
      (s : Store X) (source : Url) (r : Record X)
      → IsValid s.state
      → IsValid (report s source r).state
        × (is_recorded r.target ≡ true
            → target_is_active (report s source r).state.probe_history r.target ≡ true)
        × (is_recorded r.target ≡ false → (report s source r).state ≡ s.state)
        × ((report s source r).written ≡ s.written ++ record r { message = trim r.message } ∷ [])
  unfolding report record_history
  report-IsValid s source r v =
      let r' : Record X = record r { message = trim r.message } in
      elim (Bool-cases (is_recorded r.target)) [
        | inl kept ↦ rw kept (
          record_history-IsValid s.state source r' true v,
          λ _. (append_frame (set_incident_if_need s.state r' true).probe_history source r').0,
          λ no_record. absurd (false≢true (sym no_record)),
          refl,
        )
        | inr skipped ↦ rw skipped (v, λ recorded. absurd (false≢true recorded), λ _. refl, refl)
      ]

  -- From a sound history, an activated target is active, and the history stays sound.
  pub activate_target-is_active :
      (hs : ProbeHistoryMap X) (source target : Url)
      → HistoryValid.IsValid hs
      → HistoryValid.IsValid (activate_target hs source target)
        × (target_is_active (activate_target hs source target) target ≡ true)
  unfolding activate_target target_is_active
  activate_target-is_active hs source target v =
      let old = or_new (lookup target.text hs) target in
      (
        All-insert IsValidEntry target.text (add_source old source) hs
            (add_source-IsValidEntry target.text old source (
              or_new-IsValidEntry (lookup target.text hs)
                (λ ph e. All-lookup IsValidEntry target.text ph hs v e)))
            v,
        ap entry_is_active (lookup-insert target.text target.text (add_source old source) hs)
            ∙ rw (bytes_eq_refl target.text) (add_source-is_active old source),
      )
    where
      or_new-IsValidEntry :
          (o : Option (ProbeHistory X))
          → ((ph : ProbeHistory X) → o ≡ some ph → IsValidEntry (target.text, ph))
          → IsValidEntry (target.text, or_new o target)
      or_new-IsValidEntry (some ph) h = h ph refl
      or_new-IsValidEntry none h = record {
        short = omega arith;
        ordered = tt;
        distinct = tt;
        keyed = refl;
      }
