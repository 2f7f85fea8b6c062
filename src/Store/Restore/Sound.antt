-- ===== src/Store/Restore/Sound.antt =====
-- internal/store/store.go: `Restore` makes a sound store in which nothing is active.
use ayd.Common.{
  ℕ, ◌+◌, ◌-◌, ◌≡◌, refl, ◌∙◌, Bool, true, false, List, [], ◌∷◌, Option, none, some, min, ltb,
  Bool-cases, inl, inr, All,
}
use mathlib.Core.List.{reverse}
use mathlib.Core.Bool.{false≢true}
use ayd.Api.Record.{Url, Record}
use ayd.Store.History.{ProbeHistoryMap, is_active, set_inactive}
use ayd.Store.History.Valid.{IsValidEntry}
use ayd.Store.Incident.{Incidents}
use ayd.Store.SetIncident.Keeps.{set_incident_quiet}
use ayd.Store.Report.{record_history, is_recorded}
use ayd.Store.Report.Valid.{IsValid, record_history-IsValid}
use ayd.Store.Restore.{
  log_restore_bytes, LogFile, missing, unreadable, readable, and_then, restore_line, restore_lines,
  restore_one_file, restore_files, set_all_inactive, finish, restore,
}

-- What every restored record keeps is kept by reading files.
module _ {X : Type 0} (hide : Url → Url) (P : Incidents X → Type 0)
    (step : (s : Incidents X) (u : Url) (r : Record X) → P s → P (record_history s u r false)) where
  restore_line-keeps :
      (s : Incidents X) (line : Option (Record X)) → P s → P (restore_line hide s line)
  unfolding restore_line
  restore_line-keeps s none p = p
  restore_line-keeps s (some r) p = elim (Bool-cases (is_recorded (hide r.target))) [
    | inl kept ↦ rw kept (step s (hide r.target) (record r { target = hide r.target }) p)
    | inr skipped ↦ rw skipped p
  ]

  restore_lines-keeps :
      (s : Incidents X) (lines : List (Option (Record X))) → P s → P (restore_lines hide s lines)
  unfolding restore_lines
  restore_lines-keeps s [] p = p
  restore_lines-keeps s (line ∷ lines) p =
      restore_lines-keeps (restore_line hide s line) lines (restore_line-keeps s line p)

  and_then-keeps :
      (s : Incidents X) (file : LogFile X) (n : ℕ) (rest : Incidents X → ℕ → Incidents X × Bool)
      → P s
      → ((s : Incidents X) (n : ℕ) → P s → P (rest s n).0)
      → P (and_then (restore_one_file hide s file n) rest).0
  unfolding restore_one_file
  and_then-keeps s missing n rest p h = h s 0 p
  and_then-keeps s unreadable n rest p h = p
  and_then-keeps s (readable size lines) n rest p h =
      h (restore_lines hide s (lines (min size n))) size
        (restore_lines-keeps s (lines (min size n)) p)

  restore_files-keeps :
      (s : Incidents X) (files : List (LogFile X)) (loaded : ℕ)
      → P s
      → P (restore_files hide s files loaded).0
  unfolding restore_files restore_one_file
  restore_files-keeps s [] loaded p = p
  restore_files-keeps s (file ∷ files) loaded p = elim (Bool-cases (ltb log_restore_bytes loaded)) [
    | inl full ↦ rw full p
    | inr room ↦ rw room (
        and_then-keeps s file (log_restore_bytes - loaded)
          (λ s n. restore_files hide s files (loaded + n)) p
          (λ s n p. restore_files-keeps s files (loaded + n) p))
  ]

module _ {X : Type 0} where
  -- No entry is active.
  abbrev pub AllInactive : ProbeHistoryMap X → Type 0
  AllInactive hs = All (λ e. is_active e.1 ≡ false) hs

  set_all_inactive-AllInactive : (hs : ProbeHistoryMap X) → AllInactive (set_all_inactive hs)
  unfolding set_all_inactive set_inactive is_active
  set_all_inactive-AllInactive [] = tt
  set_all_inactive-AllInactive ((k, ph) ∷ hs) = (refl, set_all_inactive-AllInactive hs)

  set_all_inactive-IsValid :
      (hs : ProbeHistoryMap X) → All IsValidEntry hs → All IsValidEntry (set_all_inactive hs)
  unfolding set_all_inactive set_inactive
  set_all_inactive-IsValid [] v = tt
  set_all_inactive-IsValid ((k, ph) ∷ hs) v = (
    record { short = v.0.short; ordered = v.0.ordered; distinct = tt; keyed = v.0.keyed },
    set_all_inactive-IsValid hs v.1,
  )

  record_history_quiet :
      (s : Incidents X) (u : Url) (r : Record X)
      → ((record_history s u r false).calls ≡ s.calls)
        × ((record_history s u r false).incident_count ≡ s.incident_count)
  unfolding record_history
  record_history_quiet s u r = set_incident_quiet s r

  -- The store is sound, and has the calls and the count of `s`.
  abbrev QuietFrom : Incidents X → Incidents X → Type 0
  QuietFrom s after =
      IsValid after × (after.calls ≡ s.calls) × (after.incident_count ≡ s.incident_count)

  record_history-QuietFrom :
      (s x : Incidents X) (u : Url) (r : Record X)
      → QuietFrom s x
      → QuietFrom s (record_history x u r false)
  record_history-QuietFrom s x u r (v, calls, count) = (
    record_history-IsValid x u r false v,
    (record_history_quiet x u r).0 ∙ calls,
    (record_history_quiet x u r).1 ∙ count,
  )

  finish-QuietFrom :
      (s : Incidents X) (o : Incidents X × Bool)
      → QuietFrom s o.0
      → QuietFrom s (finish o).0 × ((finish o).1 ≡ true → AllInactive (finish o).0.probe_history)
  finish-QuietFrom s (x, false) q = (q, λ e. absurd (false≢true e))
  finish-QuietFrom s (x, true) (v, calls, count) = (
    (
      record {
        history = set_all_inactive-IsValid x.probe_history v.history;
        incidents = v.incidents;
      },
      calls,
      count,
    ),
    λ _. set_all_inactive-AllInactive x.probe_history,
  )

  -- Restoring a sound store from any log files, with any bytes in them, leaves it sound, calls no
  -- handler and counts no incident; and without an error no target is active afterwards.
  pub restore-IsValid :
      (hide : Url → Url) (s : Incidents X) (files : List (LogFile X))
      → IsValid s
      → let after = restore hide s false files in
        IsValid after.0
        × (after.0.calls ≡ s.calls)
        × (after.0.incident_count ≡ s.incident_count)
        × (after.1 ≡ true → AllInactive after.0.probe_history)
  unfolding restore
  restore-IsValid hide s files v =
      let start : Incidents X = record s { probe_history = [] } in
      let (q, inactive) = finish-QuietFrom s (restore_files hide start (reverse files) 0) (
        restore_files-keeps hide (QuietFrom s) (record_history-QuietFrom s) start (reverse files) 0
          (record { history = tt; incidents = v.incidents }, refl, refl)) in
      (q.0, q.1, q.2, inactive)
