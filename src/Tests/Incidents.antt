-- ===== src/Tests/Incidents.antt =====
-- Runs of `setIncidentIfNeed`.
use ayd.Common.{
  ℕ, ◌≤◌, ◌<◌, ◌≡◌, refl, true, false, [], ◌∷◌, none, some, codes, arith, lookup, length, bytes_eq,
  insert, delete,
}
use ayd.Api.Status.{Status, status_eq}
use ayd.Api.Record.{Time, Record}
use ayd.Store.History
use ayd.Store.History.{has_source}
use ayd.Store.Incident.{Incidents, records_of, last_after, search_past, search_last_incident}
use ayd.Store.SetIncident.{set_incident_if_need, continues}
use ayd.Store.SetIncident.Pointers.{IsValid}
use ayd.Store.SetIncident.Valid.{set_incident_if_need-IsValid}
use ayd.Store.SetIncident.Effect.{set_incident_recovers}
use ayd.Store.SetIncident.Frame.{set_incident_if_need_frame}
use ayd.Store.SetIncident.Failure.{IsOpen, set_incident_opens}
use ayd.Store.SetIncident.Past.{count, recovery_in_past_duplicates}
use ayd.Store.Report.{record_history}
use ayd.Tests.Matchers.{sample, sample_url}

-- A store before its first record, with one handler.
abbrev pub empty : Incidents Unit
empty = record {
  probe_history = [];
  heap = λ p. record {
    target = sample_url;
    status = Status.healthy;
    message = [];
    starts_at = 0;
    ends_at = 0;
  };
  next = 0;
  current_incidents = [];
  incident_history = [];
  on_status_changed = 0 ∷ [];
  incident_count = 0;
  calls = [];
}

pub empty_sound : IsValid empty
unfolding lookup
empty_sound = record { current_sound = λ k p h. cc; past_allocated = tt }

abbrev pub down : Time → Record Unit
down t = sample t (codes "down")

abbrev pub well : Time → Record Unit
well t = record (sample t []) { status = Status.healthy }

-- Down at 5.
abbrev pub failing : Incidents Unit
failing = record_history empty sample_url (down 5) true

-- Down at 5 and well at 9.
abbrev recovered : Incidents Unit
recovered = record_history failing sample_url (well 9) true

failing_sound : IsValid (set_incident_if_need empty (down 5) true)
failing_sound = set_incident_if_need-IsValid empty (down 5) true empty_sound

set_incident_if_need-IsValid_example :
    IsValid (set_incident_if_need (set_incident_if_need empty (down 5) true) (well 9) true)
set_incident_if_need-IsValid_example =
    set_incident_if_need-IsValid (set_incident_if_need empty (down 5) true) (well 9) true
      failing_sound

-- Another target fails while the first is down.
abbrev other_down : Record Unit
other_down = record (down 6) { target = record { scheme = codes "dns"; text = codes "dns:a.b" } }

set_incident_if_need_frame_example :
    let before = set_incident_if_need empty (down 5) true in
    let after = set_incident_if_need before other_down true in
    (lookup (codes "http://a.b") after.current_incidents
      ≡ lookup (codes "http://a.b") before.current_incidents)
    × ((q : ℕ)
        → lookup (codes "http://a.b") before.current_incidents ≡ some q
        → after.heap q ≡ before.heap q)
set_incident_if_need_frame_example =
    set_incident_if_need_frame (set_incident_if_need empty (down 5) true) other_down true
      (codes "http://a.b") failing_sound (λ e. cc)

set_incident_recovers_example :
    lookup
      (codes "http://a.b")
      (set_incident_if_need
        (set_incident_if_need empty (down 5) true)
        (well 9)
        true).current_incidents
    ≡ none
set_incident_recovers_example =
    set_incident_recovers (set_incident_if_need empty (down 5) true) (well 9) true failing_sound
      refl

sick : status_eq Status.failure Status.healthy ≡ false
unfolding status_eq
sick = refl

live : status_eq Status.failure Status.aborted ≡ false
unfolding status_eq
live = refl

nothing_later : last_after (records_of (lookup (codes "http://a.b") empty.probe_history)) 5 ≡ false
unfolding last_after lookup
nothing_later = refl

nothing_past : search_past empty (codes "http://a.b") 5 ≡ none
unfolding search_past lookup
nothing_past = refl

set_incident_opens_example : IsOpen (set_incident_if_need empty (down 5) true) (down 5)
set_incident_opens_example =
    set_incident_opens empty (down 5) true sick live nothing_later nothing_past

found_again : search_last_incident recovered (codes "http://a.b") 7 ≡ some 0
unfolding record_history set_incident_if_need History.append lookup search_last_incident status_eq
    insert delete bytes_eq
found_again = refl

goes_on_not : continues (recovered.heap 0) (well 7) ≡ false
unfolding record_history set_incident_if_need History.append lookup continues status_eq insert
    delete bytes_eq
goes_on_not = refl

one_past : recovered.incident_history ≡ 0 ∷ []
unfolding record_history set_incident_if_need History.append lookup search_last_incident status_eq
    insert delete bytes_eq
one_past = refl

once : 1 ≤ count 0 recovered.incident_history
once = rw one_past (omega arith)

short : length recovered.incident_history < 20
short = rw one_past (omega arith)

recovery_in_past_duplicates_example :
    2 ≤ count 0 (set_incident_if_need recovered (well 7) true).incident_history
recovery_in_past_duplicates_example =
    recovery_in_past_duplicates recovered (well 7) true 0 refl found_again goes_on_not once short
