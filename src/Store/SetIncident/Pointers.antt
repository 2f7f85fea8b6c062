-- ===== src/Store/SetIncident/Pointers.antt =====
-- internal/store/store.go: what holds of the pointers to incidents, and of writes through them.
use mathlib.Core.Bool.{false≢true}
use native.Mathlib.Decide.{ℕ_discrete}
use ayd.Common.{
  ℕ, ◌<◌, false, ◌≡◌, ◌≢◌, sym, ap, ◌∙◌, inl, inr, List, [], ◌∷◌, some, Bytes, bytes_eq,
  bytes_eq_iff, length, arith, ltb, All, Bool-cases, lookup, delete, lookup-delete,
}
use ayd.Api.Status.{Status, status_eq}
use ayd.Api.Record.{Time}
use ayd.Store.Incident.{incident_history_len, zero_time, Incident, Incidents, write}
use ayd.Store.SetIncident.{trim_incidents, start_by}

pub write_self : (heap : ℕ → Incident) (p : ℕ) (v : Incident) → write heap p v p ≡ v
unfolding write
write_self heap p v = ground arith

pub write_ne : (heap : ℕ → Incident) (p q : ℕ) (v : Incident) → q ≢ p → write heap p v q ≡ heap q
unfolding write
write_ne heap p q v h = ground arith

abbrev pub Below : ℕ → ℕ → Type 0
Below n p = p < n

abbrev pub Apart : ℕ → ℕ → Type 0
Apart p q = q ≢ p

-- An address that `currentIncidents` holds at `k`: an unhealthy incident of that target that has
-- not ended, and that is not in the history.
pub record IsCurrent (heap : ℕ → Incident) (next : ℕ) (history : List ℕ) (k : Bytes) (p : ℕ)
    : Type 0 where
  pub allocated : p < next
  pub keyed : (heap p).target.text ≡ k
  pub not_ended : (heap p).ends_at ≡ zero_time
  pub unhealthy : status_eq (heap p).status Status.healthy ≡ false
  pub apart : All (Apart p) history

pub record IsSound (heap : ℕ → Incident) (next : ℕ) (current : List (Bytes × ℕ)) (history : List ℕ)
    : Type 0 where
  pub current_sound :
      (k : Bytes) (p : ℕ) → lookup k current ≡ some p → IsCurrent heap next history k p
  pub past_allocated : All (Below next) history

abbrev pub IsValid : {X : Type 0} → Incidents X → Type 0
IsValid s = IsSound s.heap s.next s.current_incidents s.incident_history

pub All-weaken : (P Q : ℕ → Type 0) (xs : List ℕ) → ((x : ℕ) → P x → Q x) → All P xs → All Q xs
All-weaken P Q [] f h = tt
All-weaken P Q (x ∷ xs) f h = (f x h.0, All-weaken P Q xs f h.1)

pub All-trim_incidents : (P : ℕ → Type 0) (xs : List ℕ) → All P xs → All P (trim_incidents xs)
unfolding trim_incidents
All-trim_incidents P [] h = tt
All-trim_incidents P (x ∷ xs) h = elim (Bool-cases (ltb incident_history_len (length (x ∷ xs)))) [
  | inl long ↦ rw long h.1
  | inr short ↦ rw short h
]

pub start_by_keeps :
    (x : Incident) (t : Time)
    → ((start_by x t).target ≡ x.target)
      × ((start_by x t).status ≡ x.status)
      × ((start_by x t).ends_at ≡ x.ends_at)
unfolding start_by
start_by_keeps x t = ground arith

module _ {heap : ℕ → Incident} {next : ℕ} {history : List ℕ} {k : Bytes} {p : ℕ} where
  -- A write elsewhere.
  pub IsCurrent-write_ne :
      (q : ℕ) (v : Incident)
      → p ≢ q
      → IsCurrent heap next history k p
      → IsCurrent (write heap q v) next history k p
  IsCurrent-write_ne q v ne c =
      let same = write_ne heap q p v ne in
      record {
        allocated = c.allocated;
        keyed = ap (λ x. x.target.text) same ∙ c.keyed;
        not_ended = ap (λ x. x.ends_at) same ∙ c.not_ended;
        unhealthy = ap (λ x. status_eq x.status Status.healthy) same ∙ c.unhealthy;
        apart = c.apart;
      }

  -- A write that keeps the target, the status and the end.
  pub IsCurrent-write :
      (q : ℕ) (v : Incident)
      → v.target ≡ (heap q).target
      → v.status ≡ (heap q).status
      → v.ends_at ≡ (heap q).ends_at
      → IsCurrent heap next history k p
      → IsCurrent (write heap q v) next history k p
  IsCurrent-write q v et es ee c = elim (ℕ_discrete p q) [
    | yes same ↦
        let at : write heap q v p ≡ v = ap (write heap q v) same ∙ write_self heap q v in
        let old : heap q ≡ heap p = ap heap (sym same) in
        record {
          allocated = c.allocated;
          keyed =
              ap (λ x. x.target.text) at
              ∙ ap (λ x. x.text) et
              ∙ ap (λ x. x.target.text) old
              ∙ c.keyed;
          not_ended = ap (λ x. x.ends_at) at ∙ ee ∙ ap (λ x. x.ends_at) old ∙ c.not_ended;
          unhealthy =
              ap (λ x. status_eq x.status Status.healthy) at
              ∙ ap (λ x. status_eq x Status.healthy) es
              ∙ ap (λ x. status_eq x.status Status.healthy) old
              ∙ c.unhealthy;
          apart = c.apart;
        }
    | no other ↦ IsCurrent-write_ne q v other c
  ]

-- What is left after a deletion was there, under another key.
pub delete_inv :
    (k j : Bytes) (m : List (Bytes × ℕ)) {p : ℕ}
    → lookup j (delete k m) ≡ some p
    → (j ≢ k) × (lookup j m ≡ some p)
delete_inv k j m h = elim (Bool-cases (bytes_eq k j)) [
  | inl same ↦ absurd (ground (arith, lookup-delete k j m))
  | inr other ↦ (
    λ e. false≢true (sym other ∙ (bytes_eq_iff k j).1 (sym e)),
    ground (arith, lookup-delete k j m),
  )
]
