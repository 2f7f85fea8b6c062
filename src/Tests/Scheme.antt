-- ===== src/Tests/Scheme.antt =====
-- Runs of the trackers of targets and of the sets of URLs.
use ayd.Common.{◌≡◌, refl, true, false, not, ◌&&◌, List, [], ◌∷◌, Bytes, bytes_eq, codes}
use ayd.Api.Record.{Url}
use ayd.Scheme.Tracker.{
  Reporter, TargetTracker, fixed_reporter, is_listed, prepare_reporter, report_all,
}
use ayd.Scheme.Tracker.Round.{IsValid, is_reported, prepare_reporter_round}
use ayd.Scheme.Search.{at_most}
use ayd.Scheme.UrlSet.{has, add}
use ayd.Scheme.UrlSet.Members.{Descends, has-is_listed}
use ayd.Scheme.UrlSet.Adding.{add_overwrites}
use ayd.Store.History.{has_source}
use ayd.Tests.Matchers.{sample, sample_url}

abbrev url : Bytes → Url
url text = record { scheme = codes "x"; text = text }

-- An upstream that keeps the texts of the sources.
abbrev collector : Reporter (List Bytes) Unit
collector = record {
  report = λ s source rec. source.text ∷ s;
  deactivate_target = λ s source targets. s;
}

abbrev tracker : TargetTracker
tracker = record { actives = sample_url ∷ url (codes "b") ∷ []; inactives = [] }

tracker-IsValid : IsValid tracker
unfolding has_source bytes_eq
tracker-IsValid = ((refl, (refl, tt)), tt)

prepare_reporter_round_example :
    let (start, fixed) = prepare_reporter tracker (url (codes "p")) collector in
    let after =
      report_all
        (fixed_reporter fixed)
        (url (codes "q"))
        (sample 3 [] ∷ sample 4 [] ∷ [])
        ([], start) in
    (after.0 ≡ report_all collector (url (codes "p")) (sample 3 [] ∷ sample 4 [] ∷ []) [])
    × ((k : Bytes)
        → (is_listed k after.1.actives ≡ is_reported k (sample 3 [] ∷ sample 4 [] ∷ []))
          × (is_listed k after.1.inactives ≡ (
              is_listed k tracker.actives && not (is_reported k (sample 3 [] ∷ sample 4 [] ∷ [])))))
    × IsValid after.1
prepare_reporter_round_example =
    prepare_reporter_round tracker (url (codes "p")) (url (codes "q")) collector
      (sample 3 [] ∷ sample 4 [] ∷ []) [] tracker-IsValid

abbrev two_urls : List Url
two_urls = url (codes "m") ∷ url (codes "c") ∷ []

two_urls-Descends : Descends two_urls
unfolding at_most
two_urls-Descends = ((refl, tt), (tt, tt))

has-is_listed_example : has two_urls (url (codes "c")) ≡ is_listed (codes "c") two_urls
has-is_listed_example = has-is_listed two_urls (url (codes "c")) two_urls-Descends

above_f : at_most (codes "m") (codes "f") ≡ false
unfolding at_most
above_f = refl

below_f : at_most (codes "c") (codes "f") ≡ true
unfolding at_most
below_f = refl

other_text : bytes_eq (codes "c") (codes "f") ≡ false
unfolding bytes_eq
other_text = refl

-- `c` is lost.
add_overwrites_example :
    add two_urls (url (codes "f")) ≡ url (codes "m") ∷ url (codes "f") ∷ url (codes "f") ∷ []
add_overwrites_example =
    add_overwrites (url (codes "m") ∷ []) [] (url (codes "c")) (url (codes "f")) two_urls-Descends
      (above_f, tt) below_f other_text

lost : has (add two_urls (url (codes "f"))) (url (codes "c")) ≡ false
unfolding add has at_most bytes_eq
lost = refl
