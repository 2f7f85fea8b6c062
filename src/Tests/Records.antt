-- ===== src/Tests/Records.antt =====
-- Runs of lib-ayd/status.go, internal/store/probehistory.go and the messages of incident.go.
use ayd.Common.{◌≡◌, ◌≤◌, refl, true, false, List, [], ◌∷◌, ◌++◌, codes, arith}
use ayd.Api.Record.{Url, Record}
use ayd.Store.History.{ProbeHistory, ProbeHistoryMap, has_source, append}
use ayd.Store.History.Sources.{Distinct}
use ayd.Store.History.Valid.{IsValid, append-IsValid}
use ayd.Store.Message.{is_host, is_digit, mask, is_same_incident_message, number_from, max_int}
use ayd.Store.Message.Mask.{Holds, Stops, with_port, same_beyond_ports}
use ayd.Tests.Matchers.{sample, sample_url}

abbrev source : Url
source = record { scheme = codes "dns"; text = codes "dns:a.b" }

abbrev in_order : List (Record Unit)
in_order = sample 3 [] ∷ sample 8 [] ∷ []

abbrev entry : ProbeHistory Unit
entry = record { target = sample_url; records = in_order; sources = codes "http://a.b" ∷ [] }

entry-Distinct : Distinct entry.sources
unfolding has_source
entry-Distinct = (refl, tt)

abbrev one_target : ProbeHistoryMap Unit
one_target = append [] source (sample 8 (codes "later"))

append-IsValid_example : IsValid (append one_target source (sample 5 (codes "late")))
append-IsValid_example =
    append-IsValid one_target source (sample 5 (codes "late"))
      (append-IsValid [] source (sample 8 (codes "later")) tt)

ports_masked : mask (codes "a.b:4567: refused") ≡ codes "a.b:{PORT_NUMBER_IS_MASKED}: refused"
unfolding mask number_from
ports_masked = refl

same_high_ports :
    is_same_incident_message (codes "dial [::1]:4567 to a.b:80") (codes "dial [::1]:9999 to a.b:80")
    ≡ true
unfolding is_same_incident_message
same_high_ports = refl

other_low_ports :
    is_same_incident_message (codes "a.b:80: refused") (codes "a.b:81: refused") ≡ false
unfolding is_same_incident_message
other_low_ports = refl

host_class : Holds is_host (codes "a.b")
unfolding is_host is_digit
host_class = (refl, (refl, (refl, tt)))

port_class : Holds is_digit (codes "4567") × Holds is_digit (codes "9999")
unfolding is_digit
port_class = ((refl, (refl, (refl, (refl, tt)))), (refl, (refl, (refl, (refl, tt)))))

stops : Stops is_digit (codes ": refused")
unfolding is_digit
stops = refl

port_bounds :
    (1024 ≤ number_from 0 (codes "4567"))
    × (number_from 0 (codes "4567") ≤ max_int)
    × (1024 ≤ number_from 0 (codes "9999"))
    × (number_from 0 (codes "9999") ≤ max_int)
unfolding number_from
port_bounds = (omega arith, omega arith, omega arith, omega arith)

same_beyond_ports_example :
    is_same_incident_message
      (with_port (codes "a.b") (codes "4567") ++ codes ": refused")
      (with_port (codes "a.b") (codes "9999") ++ codes ": refused")
    ≡ true
same_beyond_ports_example =
    same_beyond_ports (codes "a.b") (codes "4567") (codes "9999") (codes ": refused") host_class
      (λ e. cc) port_class.0 port_class.1 stops port_bounds.0 port_bounds.1 port_bounds.2
      port_bounds.3
