-- ===== src/Scheme/Tracker/Round.antt =====
-- internal/scheme/targettracker.go: what a round of reports leaves in the tracker.
use mathlib.Core.Path.{subst}
use ayd.Common.{
  Bool, false, not, ◌&&◌, ◌||◌, ◌≡◌, refl, sym, ap, ◌∙◌, List, [], ◌∷◌, ◌++◌, Bytes, bytes_eq,
  if◌then◌else◌, arith, Bool-cases, inl, inr,
}
use ayd.Api.Record.{Url, Record}
use ayd.Store.History.{has_source, cut_source}
use ayd.Store.History.Sources.{
  Distinct, added, has_source-added, Distinct-added, has_source-cut_source, Distinct-cut_source,
}
use ayd.Scheme.Tracker.{
  Reporter, TargetTracker, fixed_reporter, is_listed, add_active, remove_inactive, activate,
  prepare_reporter, report_all,
}

abbrev pub texts : List Url → List Bytes
texts [] = []
texts (u ∷ us) = u.text ∷ texts us

is_listed-texts : (k : Bytes) (us : List Url) → is_listed k us ≡ has_source k (texts us)
unfolding is_listed has_source
is_listed-texts k [] = refl
is_listed-texts k (u ∷ us) = ground (arith, is_listed-texts k us)

texts-concat : (us : List Url) (u : Url) → texts (us ++ u ∷ []) ≡ texts us ++ u.text ∷ []
texts-concat [] u = refl
texts-concat (v ∷ us) u = ap (λ x. v.text ∷ x) (texts-concat us u)

texts-add_active : (us : List Url) (u : Url) → texts (add_active us u) ≡ added u.text (texts us)
unfolding add_active
texts-add_active us u =
    rw (is_listed-texts u.text us) (elim (Bool-cases (has_source u.text (texts us))) [
      | inl old ↦ rw old
      | inr fresh ↦ rw fresh (texts-concat us u)
    ])

texts-remove_inactive :
    (us : List Url) (u : Url) → texts (remove_inactive us u) ≡ cut_source u.text (texts us)
unfolding remove_inactive cut_source
texts-remove_inactive [] u = refl
texts-remove_inactive (v ∷ us) u = ground (arith, texts-remove_inactive us u)

-- No target is listed twice.
abbrev pub IsValid : TargetTracker → Type 0
IsValid t = Distinct (texts t.actives) × Distinct (texts t.inactives)

activate-IsValid : (t : TargetTracker) (u : Url) → IsValid t → IsValid (activate t u)
unfolding activate
activate-IsValid t u v = (
  rw (texts-add_active t.actives u) (Distinct-added u.text (texts t.actives) v.0),
  rw (texts-remove_inactive t.inactives u) (Distinct-cut_source u.text (texts t.inactives) v.1),
)

is_listed-add_active :
    (k : Bytes) (us : List Url) (u : Url)
    → is_listed k (add_active us u) ≡ (is_listed k us || bytes_eq u.text k)
is_listed-add_active k us u =
    is_listed-texts k (add_active us u)
    ∙ ap (has_source k) (texts-add_active us u)
    ∙ has_source-added u.text k (texts us)
    ∙ ap (λ b. b || bytes_eq u.text k) (sym (is_listed-texts k us))

is_listed-remove_inactive :
    (k : Bytes) (us : List Url) (u : Url)
    → Distinct (texts us)
    → is_listed k (remove_inactive us u) ≡ (if bytes_eq u.text k then false else is_listed k us)
is_listed-remove_inactive k us u d =
    is_listed-texts k (remove_inactive us u)
    ∙ ap (has_source k) (texts-remove_inactive us u)
    ∙ has_source-cut_source u.text k (texts us) d
    ∙ ap (λ b. if bytes_eq u.text k then false else b) (sym (is_listed-texts k us))

module _ {X : Type 0} where
  -- Whether a record of the target is among the records.
  abbrev pub is_reported : Bytes → List (Record X) → Bool
  is_reported k [] = false
  is_reported k (r ∷ rs) = bytes_eq r.target.text k || is_reported k rs

  -- `Activate` with the target of each record.
  abbrev activate_all : TargetTracker → List (Record X) → TargetTracker
  activate_all t [] = t
  activate_all t (r ∷ rs) = activate_all (activate t r.target) rs

  -- What the tracker lists after the records, for the lists before them.
  abbrev Lists : (before after : TargetTracker) → List (Record X) → Bytes → Type 0
  Lists before after rs k =
      (is_listed k after.actives ≡ (is_listed k before.actives || is_reported k rs))
      × (is_listed k after.inactives ≡ (is_listed k before.inactives && not (is_reported k rs)))

  listed_active :
      (t : TargetTracker) (r : Record X) (rs : List (Record X)) (k : Bytes)
      → (is_listed k (activate t r.target).actives || is_reported k rs)
        ≡ (is_listed k t.actives || (bytes_eq r.target.text k || is_reported k rs))
  unfolding activate
  listed_active t r rs k = rw (is_listed-add_active k t.actives r.target) (ground arith)

  listed_inactive :
      (t : TargetTracker) (r : Record X) (rs : List (Record X)) (k : Bytes)
      → Distinct (texts t.inactives)
      → (is_listed k (activate t r.target).inactives && not (is_reported k rs))
        ≡ (is_listed k t.inactives && not (bytes_eq r.target.text k || is_reported k rs))
  unfolding activate
  listed_inactive t r rs k d =
      rw (is_listed-remove_inactive k t.inactives r.target d) (ground arith)

  activate_all-Lists :
      (t : TargetTracker) (rs : List (Record X)) (k : Bytes)
      → IsValid t
      → Lists t (activate_all t rs) rs k × IsValid (activate_all t rs)
  activate_all-Lists t [] k v = ((ground arith, ground arith), v)
  activate_all-Lists t (r ∷ rs) k v =
      let ((act, inact), v') =
        activate_all-Lists (activate t r.target) rs k (activate-IsValid t r.target v) in
      ((act ∙ listed_active t r rs k, inact ∙ listed_inactive t r rs k v.1), v')

module _ {S X : Type 0} where
  report_all-prepared :
      (r : Reporter S X) (source other : Url) (t0 t : TargetTracker) (recs : List (Record X))
      (s : S)
      → report_all (fixed_reporter (prepare_reporter t0 source r).1) other recs (s, t)
        ≡ (report_all r source recs s, activate_all t recs)
  unfolding report_all prepare_reporter fixed_reporter
  report_all-prepared r source other t0 t [] s = refl
  report_all-prepared r source other t0 t (rec ∷ recs) s =
      report_all-prepared r source other t0 (activate t rec.target) recs (r.report s source rec)

  -- A round of a probe, in which it reports any records through the reporter that it was given,
  -- where no target is listed twice before: the upstream has got each record with the probe's own
  -- URL for the source; the active targets are those of the records; and the inactive ones, which
  -- the probe then deactivates, are those that were active before and that no record names. Again
  -- no target is listed twice.
  pub prepare_reporter_round :
      (t : TargetTracker) (source other : Url) (r : Reporter S X) (recs : List (Record X)) (s : S)
      → IsValid t
      → let (start, fixed) = prepare_reporter t source r in
        let after = report_all (fixed_reporter fixed) other recs (s, start) in
        (after.0 ≡ report_all r source recs s)
        × ((k : Bytes)
            → (is_listed k after.1.actives ≡ is_reported k recs)
              × (is_listed k after.1.inactives
                  ≡ (is_listed k t.actives && not (is_reported k recs))))
        × IsValid after.1
  unfolding is_listed prepare_reporter
  prepare_reporter_round t source other r recs s v =
      let start : TargetTracker = record { actives = []; inactives = t.actives } in
      let end = report_all-prepared r source other t start recs s in
      let lists : (k : Bytes) → Lists start (activate_all start recs) recs k =
        λ k. (activate_all-Lists start recs k (tt, v.0)).0 in
      (
        ap (λ x. x.0) end,
        λ k. (
          ap (λ x. is_listed k x.1.actives) end ∙ (lists k).0,
          ap (λ x. is_listed k x.1.inactives) end ∙ (lists k).1,
        ),
        subst (λ x. IsValid x.1) (sym end) (activate_all-Lists start recs [] (tt, v.0)).1,
      )
