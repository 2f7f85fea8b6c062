-- ===== src/Store/Message.antt =====
-- internal/store/incident.go: when two messages tell of the same incident.
pub mod Mask
use ayd.Common.{
  ◌≡◌, refl, ℕ, zero, suc, ◌+◌, ◌-◌, ◌*◌, Bool, true, false, ◌&&◌, ◌||◌, List, [], ◌∷◌, ◌++◌,
  Option, none, some, Bytes, bytes_eq, codes, length, leb, ltb, ◌==◌, if◌then◌else◌,
}

abbrev within : ℕ → ℕ → ℕ → Bool
within lo hi c = leb lo c && leb c hi

unfoldable pub is_digit : ℕ → Bool
is_digit = within b'0' b'9'

-- `[-_.0-9a-zA-Z]`
unfoldable pub is_host : ℕ → Bool
is_host c =
    c == b'-'
    || c == b'_'
    || c == b'.'
    || within b'0' b'9' c
    || within b'a' b'z' c
    || within b'A' b'Z' c

-- `[0-9a-fA-F:]`
unfoldable pub is_address : ℕ → Bool
is_address c = within b'0' b'9' c || within b'a' b'f' c || within b'A' b'F' c || c == b':'

-- The longest run of bytes of a class, and the rest.
unfoldable pub run_of : (ℕ → Bool) → Bytes → Bytes
run_of p [] = []
run_of p (c ∷ s) = if p c then c ∷ run_of p s else []

unfoldable pub rest_of : (ℕ → Bool) → Bytes → Bytes
rest_of p [] = []
rest_of p (c ∷ s) = let rest = rest_of p s in if p c then rest else c ∷ s

-- What `addressPattern` matches at a place: the text before the colon, the host in it, the port.
pub record Address : Type 0 where
  pub written : Bytes
  pub host : Bytes
  pub port : Bytes

-- `:(\d+)`
unfoldable pub port_at : Bytes → Option Bytes
unfolding run_of is_digit
port_at [] = none
port_at (c ∷ s) =
    if c == b':' then elim (run_of is_digit s) [ [] ↦ none | d ∷ ds ↦ some (d ∷ ds) ] else none

abbrev with_port : Bytes → Bytes → Option Bytes → Option Address
with_port written host none = none
with_port written host (some port) = some (record { written = written; host = host; port = port })

abbrev named : Bytes → Bytes → Option Address
named [] rest = none
named (c ∷ host) rest = with_port (c ∷ host) (c ∷ host) (port_at rest)

abbrev bracketed : Bytes → Bytes → Option Address
bracketed [] rest = none
bracketed host [] = none
bracketed host (c ∷ rest) =
    if c == b']' then with_port ((b'[' ∷ host) ++ c ∷ []) host (port_at rest) else none

-- `addressPattern` at a place. The dotted quads are among the names.
unfoldable pub address_at : Bytes → Option Address
unfolding run_of rest_of is_host is_address port_at
address_at [] = none
address_at (c ∷ s) =
    if c == b'['
    then bracketed (run_of is_address s) (rest_of is_address s)
    else named (run_of is_host (c ∷ s)) (rest_of is_host (c ∷ s))

abbrev pub max_int : ℕ
max_int = 9223372036854775807

-- `strconv.Atoi` on digits, before the check of the range.
unfoldable pub number_from : ℕ → Bytes → ℕ
number_from n [] = n
number_from n (d ∷ ds) = number_from (n * 10 + (d - b'0')) ds

-- `replaceFunc` on a match. `Atoi` fails above the largest int.
unfoldable pub replace : Address → Bytes
unfolding number_from
replace a =
    let p = number_from 0 a.port in
    if ltb max_int p || ltb p 1024
    then a.written ++ b':' ∷ a.port
    else a.host ++ codes ":{PORT_NUMBER_IS_MASKED}"

-- One step of the replacement, with `next` for what follows after so many skipped bytes.
unfoldable pub place : Option Address → ℕ → (ℕ → Bytes) → Bytes
unfolding replace
place none c next = c ∷ next 0
place (some a) c next = replace a ++ next (length a.written + length a.port)

-- `addressPattern.ReplaceAllStringFunc(s, replaceFunc)`; the number counts the bytes of the last
-- match that are still to be skipped.
unfoldable pub mask_from : ℕ → Bytes → Bytes
unfolding address_at place
mask_from skip [] = []
mask_from (suc skip) (c ∷ s) = mask_from skip s
mask_from zero (c ∷ s) = place (address_at (c ∷ s)) c (λ skip. mask_from skip s)

unfoldable pub mask : Bytes → Bytes
unfolding mask_from
mask = mask_from 0

unfoldable pub is_same_incident_message : Bytes → Bytes → Bool
unfolding mask bytes_eq
is_same_incident_message a b = if bytes_eq a b then true else bytes_eq (mask a) (mask b)
