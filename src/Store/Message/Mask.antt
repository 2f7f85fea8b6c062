-- ===== src/Store/Message/Mask.antt =====
-- internal/store/incident.go: which messages are the same, and that the ports above 1023 are masked.
use mathlib.Core.Path.{ap₂}
use ayd.Common.{
  ℕ, zero, suc, ◌+◌, ◌≤◌, Bool, true, false, ◌≡◌, ◌≢◌, ◌↔◌, refl, sym, ap, ◌∙◌, [], ◌∷◌, ◌++◌, some,
  Bytes, bytes_eq, bytes_eq_iff, codes, length, length-append, arith, ltb, ◌||◌, ◌==◌, All, inl,
  inr, Bool-cases, append_assoc,
}
use ayd.Store.Message.{
  is_digit, is_host, run_of, rest_of, port_at, Address, address_at, number_from, replace, mask_from,
  place, mask, is_same_incident_message, max_int,
}

-- Two messages are the same exactly when they are equal with the ports masked: an equivalence.
pub is_same_incident_message_iff :
    (a b : Bytes) → (is_same_incident_message a b ≡ true) ↔ (mask a ≡ mask b)
unfolding is_same_incident_message
is_same_incident_message_iff a b = (
  λ h. elim (Bool-cases (bytes_eq a b)) [
    | inl same ↦ ap mask ((bytes_eq_iff a b).0 same)
    | inr other ↦ (bytes_eq_iff (mask a) (mask b)).0 (ground arith)
  ],
  λ e. ground (arith, (bytes_eq_iff (mask a) (mask b)).1 e),
)

abbrev pub Holds : (ℕ → Bool) → Bytes → Type 0
Holds p = All (λ c. p c ≡ true)

-- The text goes on with a byte outside the class, or ends.
abbrev pub Stops : (ℕ → Bool) → Bytes → Type 0
Stops p [] = Unit
Stops p (c ∷ s) = p c ≡ false

run_of-append : (p : ℕ → Bool) (xs ys : Bytes) → Holds p xs → Stops p ys → run_of p (xs ++ ys) ≡ xs
unfolding run_of
run_of-append p [] [] h k = refl
run_of-append p [] (y ∷ ys) h k = rw k
run_of-append p (x ∷ xs) ys h k = rw h.0 (ap (◌∷◌ x) (run_of-append p xs ys h.1 k))

rest_of-append :
    (p : ℕ → Bool) (xs ys : Bytes) → Holds p xs → Stops p ys → rest_of p (xs ++ ys) ≡ ys
unfolding rest_of
rest_of-append p [] [] h k = refl
rest_of-append p [] (y ∷ ys) h k = rw k
rest_of-append p (x ∷ xs) ys h k = rw h.0 (rest_of-append p xs ys h.1 k)

mask_from-append : (xs ys : Bytes) (n : ℕ) → n ≡ length xs → mask_from n (xs ++ ys) ≡ mask_from 0 ys
unfolding mask_from
mask_from-append [] ys n e = ap (λ k. mask_from k ys) e
mask_from-append (x ∷ xs) ys zero e = absurd (omega arith)
mask_from-append (x ∷ xs) ys (suc n) e = mask_from-append xs ys n (omega arith)

port_at-append :
    (d : ℕ) (ds rest : Bytes)
    → Holds is_digit (d ∷ ds)
    → Stops is_digit rest
    → port_at (b':' ∷ ((d ∷ ds) ++ rest)) ≡ some (d ∷ ds)
unfolding port_at
port_at-append d ds rest h k = rw (run_of-append is_digit (d ∷ ds) rest h k)

-- A host name with a port.
abbrev pub with_port : Bytes → Bytes → Bytes
with_port host port = host ++ b':' ∷ port

host_ne_bracket : (c : ℕ) → is_host c ≡ true → c == b'[' ≡ false
unfolding is_host
host_ne_bracket c h = ground arith

address_at-append :
    (c : ℕ) (cs : Bytes) (d : ℕ) (ds rest : Bytes)
    → Holds is_host (c ∷ cs)
    → Holds is_digit (d ∷ ds)
    → Stops is_digit rest
    → address_at ((c ∷ cs) ++ b':' ∷ ((d ∷ ds) ++ rest))
      ≡ some (record { written = c ∷ cs; host = c ∷ cs; port = d ∷ ds })
unfolding address_at is_host
address_at-append c cs d ds rest h k stop = rw (
  host_ne_bracket c h.0,
  h.0,
  run_of-append is_host cs (b':' ∷ ((d ∷ ds) ++ rest)) h.1 refl,
  rest_of-append is_host cs (b':' ∷ ((d ∷ ds) ++ rest)) h.1 refl,
  k.0,
  run_of-append is_digit ds rest k.1 stop,
)

mask_step :
    (c : ℕ) (s : Bytes) (a : Address)
    → address_at (c ∷ s) ≡ some a
    → mask_from 0 (c ∷ s) ≡ replace a ++ mask_from (length a.written + length a.port) s
unfolding mask_from
mask_step c s a e = ap (λ o. place o c (λ skip. mask_from skip s)) e

in_range : (p : ℕ) → 1024 ≤ p → p ≤ max_int → (ltb max_int p || ltb p 1024) ≡ false
in_range p low high = ground arith

replace_high :
    (a : Address)
    → 1024 ≤ number_from 0 a.port
    → number_from 0 a.port ≤ max_int
    → replace a ≡ a.host ++ codes ":{PORT_NUMBER_IS_MASKED}"
unfolding replace
replace_high a low high = rw (in_range (number_from 0 a.port) low high)

-- A host name and a port from 1024 on that is an int, with no digit after it, are masked at the
-- port, and what follows is masked by itself.
pub mask_high_port :
    (host port rest : Bytes)
    → Holds is_host host
    → Holds is_digit port
    → Stops is_digit rest
    → host ≢ []
    → 1024 ≤ number_from 0 port
    → number_from 0 port ≤ max_int
    → mask (with_port host port ++ rest) ≡ host ++ (codes ":{PORT_NUMBER_IS_MASKED}" ++ mask rest)
unfolding mask
mask_high_port [] port rest h k stop ne low high = absurd (ne refl)
mask_high_port (c ∷ cs) [] rest h k stop ne low high = absurd (empty_port low)
  where
    empty_port : 1024 ≤ number_from 0 [] → ⊥
    empty_port h = omega arith
mask_high_port (c ∷ cs) (d ∷ ds) rest h k stop ne low high =
    let a : Address = record { written = c ∷ cs; host = c ∷ cs; port = d ∷ ds } in
    let masked = codes ":{PORT_NUMBER_IS_MASKED}" in
    let whole : with_port (c ∷ cs) (d ∷ ds) ++ rest ≡ (c ∷ cs) ++ b':' ∷ ((d ∷ ds) ++ rest) =
      append_assoc (c ∷ cs) (b':' ∷ d ∷ ds) rest in
    ap (mask_from 0) whole
    ∙ mask_step c (cs ++ b':' ∷ ((d ∷ ds) ++ rest)) a (address_at-append c cs d ds rest h k stop)
    ∙ ap₂ ◌++◌ (replace_high a low high) (
        ap (mask_from (length (c ∷ cs) + length (d ∷ ds)))
          (sym (append_assoc cs (b':' ∷ d ∷ ds) rest))
        ∙ mask_from-append (cs ++ b':' ∷ d ∷ ds) rest (length (c ∷ cs) + length (d ∷ ds))
            (omega (arith, length-append cs (b':' ∷ d ∷ ds))))
    ∙ append_assoc (c ∷ cs) masked (mask_from 0 rest)

-- Two messages that begin with the same host name and go on alike behind their ports are the same
-- incident, where the ports are ints from 1024 on with no digit after them.
pub same_beyond_ports :
    (host p q rest : Bytes)
    → Holds is_host host
    → host ≢ []
    → Holds is_digit p
    → Holds is_digit q
    → Stops is_digit rest
    → 1024 ≤ number_from 0 p
    → number_from 0 p ≤ max_int
    → 1024 ≤ number_from 0 q
    → number_from 0 q ≤ max_int
    → is_same_incident_message (with_port host p ++ rest) (with_port host q ++ rest) ≡ true
same_beyond_ports host p q rest h ne hp hq stop lp up lq uq =
    (is_same_incident_message_iff (with_port host p ++ rest) (with_port host q ++ rest)).1 (
      mask_high_port host p rest h hp stop ne lp up
      ∙ sym (mask_high_port host q rest h hq stop ne lq uq))
