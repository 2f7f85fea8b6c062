-- ===== src/Scheme/Tracker.antt =====
-- internal/scheme/reporter.go and targettracker.go. A reporter acts on a state that stands for
-- everything that the reporters of a program change.
pub mod Round
use ayd.Common.{Bool, true, false, List, [], ◌∷◌, ◌++◌, Bytes, bytes_eq, if◌then◌else◌}
use ayd.Api.Record.{Url, Record}

-- The interface `Reporter`, on the state `S`.
pub record Reporter (S X : Type 0) : Type 0 where
  pub report : S → Url → Record X → S
  pub deactivate_target : S → Url → List Url → S

-- `FixedSourceReporter`
pub record FixedSourceReporter (S X : Type 0) : Type 0 where
  pub source : Url
  pub upstreams : List (Reporter S X)

module _ {S X : Type 0} where
  report_each : List (Reporter S X) → Url → Record X → S → S
  report_each [] source rec s = s
  report_each (u ∷ us) source rec s = report_each us source rec (u.report s source rec)

  deactivate_each : List (Reporter S X) → Url → List Url → S → S
  deactivate_each [] source targets s = s
  deactivate_each (u ∷ us) source targets s =
      deactivate_each us source targets (u.deactivate_target s source targets)

  -- `FixedSourceReporter` as a `Reporter`: the source of a call is not used.
  unfoldable pub fixed_reporter : FixedSourceReporter S X → Reporter S X
  unfolding report_each deactivate_each
  fixed_reporter f = record {
    report = λ s source rec. report_each f.upstreams f.source rec s;
    deactivate_target = λ s source targets. deactivate_each f.upstreams f.source targets s;
  }

-- `TargetTracker`
pub record TargetTracker : Type 0 where
  pub actives : List Url
  pub inactives : List Url

unfoldable pub is_listed : Bytes → List Url → Bool
is_listed tgt [] = false
is_listed tgt (a ∷ rest) = if bytes_eq a.text tgt then true else is_listed tgt rest

-- `addActive`, on the list.
unfoldable pub add_active : List Url → Url → List Url
unfolding is_listed
add_active actives target =
    if is_listed target.text actives then actives else actives ++ target ∷ []

-- `removeInactive`, on the list.
unfoldable pub remove_inactive : List Url → Url → List Url
remove_inactive [] target = []
remove_inactive (a ∷ inactives) target =
    let rest = remove_inactive inactives target in
    if bytes_eq a.text target.text then inactives else a ∷ rest

unfoldable pub activate : TargetTracker → Url → TargetTracker
unfolding add_active remove_inactive
activate t target = record {
  actives = add_active t.actives target;
  inactives = remove_inactive t.inactives target;
}

module _ {S X : Type 0} where
  -- The reporter `r`, with a tracker beside its state.
  unfoldable pub on_state : Reporter S X → Reporter (S × TargetTracker) X
  on_state r = record {
    report = λ s source rec. (r.report s.0 source rec, s.1);
    deactivate_target = λ s source targets. (r.deactivate_target s.0 source targets, s.1);
  }

  -- `TargetTracker` as a `Reporter`.
  unfoldable pub on_tracker : Reporter (S × TargetTracker) X
  unfolding activate
  on_tracker = record {
    report = λ s source rec. (s.0, activate s.1 rec.target);
    deactivate_target = λ s source targets. s;
  }

  -- `PrepareReporter`: the tracker after it, and the reporter that it returns.
  unfoldable pub prepare_reporter :
      TargetTracker → Url → Reporter S X → TargetTracker × FixedSourceReporter (S × TargetTracker) X
  unfolding on_state on_tracker
  prepare_reporter t source r = (
    record { actives = []; inactives = t.actives },
    record { source = source; upstreams = on_state r ∷ on_tracker ∷ [] },
  )

-- The records of a probe, reported one after the other through a reporter.
unfoldable pub report_all : {S X : Type 0} → Reporter S X → Url → List (Record X) → S → S
report_all r source [] s = s
report_all r source (rec ∷ recs) s = report_all r source recs (r.report s source rec)
