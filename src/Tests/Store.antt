-- ===== src/Tests/Store.antt =====
-- Runs of the reports and of the restoring of logs.
use ayd.Common.{◌≡◌, true, false, List, [], ◌∷◌, none, some, codes}
use ayd.Store.History.{target_is_active}
use ayd.Store.Report.{Store, report, is_recorded, trim}
use ayd.Store.Report.Valid.{IsValid, report-IsValid}
use ayd.Store.Restore.{LogFile, missing, readable, restore}
use ayd.Store.Restore.Sound.{AllInactive, restore-IsValid}
use ayd.Tests.Matchers.{sample_url}
use mathlib.Core.List.{Perm}
use ayd.Store.View.{make_report}
use ayd.Store.View.Order.{Sorted, watched, held, make_report-Sorted}
use ayd.Tests.Incidents.{failing, empty, empty_sound, down, well}

empty_store : IsValid empty
empty_store = record { history = tt; incidents = empty_sound }

abbrev new_store : Store Unit
new_store = record { state = empty; written = [] }

report-IsValid_example :
    let after = report new_store sample_url (down 5) in
    IsValid after.state
    × (is_recorded sample_url ≡ true → target_is_active after.state.probe_history sample_url ≡ true)
    × (is_recorded sample_url ≡ false → after.state ≡ empty)
    × (after.written ≡ record (down 5) { message = trim (codes "down") } ∷ [])
report-IsValid_example = report-IsValid new_store sample_url (down 5) empty_store

-- A file that is gone, and one with a line that does not parse and records out of order.
abbrev log_files : List (LogFile Unit)
log_files =
    readable 120 (λ n. some (well 9) ∷ none ∷ some (down 5) ∷ [])
    ∷ missing
    ∷ readable 80 (λ n. some (down 12) ∷ [])
    ∷ []

restore-IsValid_example :
    let after = restore (λ u. u) empty false log_files in
    IsValid after.0
    × (after.0.calls ≡ [])
    × (after.0.incident_count ≡ 0)
    × (after.1 ≡ true → AllInactive after.0.probe_history)
restore-IsValid_example = restore-IsValid (λ u. u) empty log_files empty_store

make_report-Sorted_example :
    Sorted (make_report failing 3).current_incidents
    × Perm
        (make_report failing 3).current_incidents
        (watched failing (held failing.current_incidents))
    × ((make_report failing 3).incident_history ≡ watched failing failing.incident_history)
make_report-Sorted_example = make_report-Sorted failing 3
