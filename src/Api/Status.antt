-- ===== src/Api/Status.antt =====
-- lib-ayd/status.go: the status of a target, with its text forms.
use ayd.Common.{
  arith, Bool, true, ◌==◌, ◌↔◌, ℕ, ◌-◌, ◌&&◌, ◌≡◌, refl, Bytes, bytes_eq, codes, leb, if◌then◌else◌,
}
use mathlib.Core.List.{map}

pub data Status : Type 0 where
  failure degrade unknown aborted healthy : Status

-- `strings.ToUpper` on ASCII text.
to_upper : ℕ → ℕ
to_upper c = if leb b'a' c && leb c b'z' then c - 32 else c

unfoldable pub parse_status : Bytes → Status
unfolding to_upper bytes_eq
parse_status raw =
    let s = map to_upper raw in
    if bytes_eq s (codes "HEALTHY")
    then Status.healthy
    else if bytes_eq s (codes "DEGRADE")
    then Status.degrade
    else if bytes_eq s (codes "FAILURE")
    then Status.failure
    else if bytes_eq s (codes "ABORTED")
    then Status.aborted
    else Status.unknown

unfoldable pub status_string : Status → Bytes
status_string Status.healthy = codes "HEALTHY"
status_string Status.degrade = codes "DEGRADE"
status_string Status.failure = codes "FAILURE"
status_string Status.aborted = codes "ABORTED"
status_string Status.unknown = codes "UNKNOWN"

-- Every status is read back from the text that it prints as.
pub parse_status-status_string : (s : Status) → parse_status (status_string s) ≡ s
unfolding parse_status status_string
parse_status-status_string Status.healthy = refl
parse_status-status_string _ = refl

-- The constants, shifted by two: `StatusFailure` is -2.
abbrev pub status_code : Status → ℕ
status_code Status.failure = 0
status_code Status.degrade = 1
status_code Status.unknown = 2
status_code Status.aborted = 3
status_code Status.healthy = 4

-- `a == b`
unfoldable pub status_eq : Status → Status → Bool
status_eq a b = status_code a == status_code b

pub status_eq_iff : (a b : Status) → (status_eq a b ≡ true) ↔ (a ≡ b)
unfolding status_eq
status_eq_iff a b = ground arith
