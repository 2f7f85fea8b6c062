-- ===== src/Query/Tokens/Progress.antt =====
-- internal/query/tokenizer.go: every call of `Scan` that finds a token takes bytes off the query.
use ayd.Common.{
  ℕ, zero, suc, ◌+◌, ◌≤◌, ◌<◌, Bool, true, false, ◌||◌, ◌≡◌, refl, ap, List, [], ◌∷◌, Option, none,
  some, Bytes, codes, length, length-drop, drop, ◌==◌, if◌then◌else◌, arith,
}
use ayd.Query.Ast.{Matchers}
use ayd.Query.Parse.{Token, lparen}
use ayd.Query.Tokens.{Makers, scan_bytes, new_scan, is_space, ends_keyword}
use ayd.Query.Tokens.Scan.{
  Scanned, cons_token, ended, and_more, scan_keyword, to_lower_byte, check, strip, scan_token,
  scan_stripped, scan, scan_all, tokens,
}
use ayd.Query.Tokens.Keyword.{if_holds, scan_bytes-advances}

abbrev Stripped : Bytes → Bytes → Type 0
Stripped remain [] = Unit
Stripped remain (c ∷ rest) = (is_space c ≡ false) × (length rest < length remain)

strip-Stripped : (remain : Bytes) → Stripped remain (strip remain)
unfolding strip
strip-Stripped [] = tt
strip-Stripped (c ∷ remain) = split (is_space c) refl (strip remain) (strip-Stripped remain)
  where
    split :
        (b : Bool)
        → is_space c ≡ b
        → (s : Bytes) → Stripped remain s
        → Stripped (c ∷ remain) (if b then s else c ∷ remain)
    split true e [] h = tt
    split true e (d ∷ s) h = (h.0, omega (arith, h.1))
    split false e s h = (e, omega arith)

not_delimiter :
    (c : ℕ)
    → is_space c ≡ false
    → (to_lower_byte c == b'(') ≡ false
    → (to_lower_byte c == b')') ≡ false
    → ends_keyword c ≡ false
unfolding to_lower_byte ends_keyword
not_delimiter c space open_ close = ground arith

module _ {m : Matchers} (makers : Makers m) where
  -- The scan has ended, with nothing left, or with a token and less than before.
  abbrev pub Advances : Bytes → Scanned makers → Type 0
  Advances remain none = ⊥
  Advances remain (some (false, t)) = t.remain ≡ []
  Advances remain (some (true, t)) = length t.remain < length remain

  ended-Advances :
      (r remain : Bytes) (o : Scanned makers)
      → length r < length remain
      → Advances r o
      → Advances remain (ended makers o)
  ended-Advances r remain none less h = h
  ended-Advances r remain (some (false, t)) less h = omega (arith, ap length h)
  ended-Advances r remain (some (true, t)) less h = omega (arith, h)

  scan_token-Advances :
      (c : ℕ) (rest : Bytes) (again : Bytes → Scanned makers)
      → is_space c ≡ false
      → ((r : Bytes) → length r ≤ length rest → Advances r (again r))
      → Advances (c ∷ rest) (scan_token makers c rest again)
  unfolding scan_token scan_keyword
  scan_token-Advances c rest again space rec =
      let P = Advances (c ∷ rest) in
      let low = to_lower_byte c in
      let one = length-drop 1 rest in
      let two = length-drop 2 rest in
      if_holds P (low == b'(') _ _ (λ _. omega arith)
        λ open_.
          if_holds P (low == b')') _ _ (λ _. omega arith)
            λ close.
              if_holds P (check (c ∷ rest) (codes "and")) _ _
                (λ _.
                  ended-Advances (drop 2 rest) (c ∷ rest) (again (drop 2 rest)) (omega (arith, two))
                    (rec (drop 2 rest) (omega (arith, two))))
                λ _.
                  if_holds P (check (c ∷ rest) (codes "or")) _ _ (λ _. omega (arith, one))
                    λ _.
                      if_holds P (low == b'-' || low == b'!') _ _ (λ _. omega arith)
                        λ _.
                          if_holds P (check (c ∷ rest) (codes "not")) _ _ (λ _. omega (arith, two))
                            λ _. omega (
                              arith,
                              length-drop (scan_bytes false new_scan (c ∷ rest)).i (c ∷ rest),
                              scan_bytes-advances c rest (not_delimiter c space open_ close),
                            )

  scan_stripped-Advances :
      (remain s : Bytes) (buf : Token m) (again : Bytes → Scanned makers)
      → Stripped remain s
      → ((r : Bytes) → length r < length remain → Advances r (again r))
      → Advances remain (scan_stripped makers s buf again)
  unfolding scan_stripped
  scan_stripped-Advances remain [] buf again h rec = refl
  scan_stripped-Advances remain (c ∷ rest) buf again h rec =
      shorter (scan_token makers c rest again)
        (scan_token-Advances c rest again h.0 (λ r le. rec r (omega (arith, h.1))))
    where
      shorter : (o : Scanned makers) → Advances (c ∷ rest) o → Advances remain o
      shorter none e = e
      shorter (some (false, t)) e = e
      shorter (some (true, t)) e = omega (arith, h.1, e)

  -- `Scan` ends on every query with more fuel than bytes, with nothing left where it finds no
  -- token, and with less left than before where it finds one.
  pub scan-Advances :
      (fuel : ℕ) (remain : Bytes) (buf : Token m)
      → length remain < fuel
      → Advances remain (scan makers fuel remain buf)
  unfolding scan
  scan-Advances zero remain buf h = absurd (omega arith)
  scan-Advances (suc f) remain buf h =
      scan_stripped-Advances remain (strip remain) buf (λ r. scan makers f r buf)
        (strip-Stripped remain) (λ r less. scan-Advances f r buf (omega arith))

  -- There are tokens, and no more than the number.
  abbrev pub AtMost : ℕ → Option (List (Token m)) → Type 0
  AtMost n none = ⊥
  AtMost n (some ts) = length ts ≤ n

  scan_all-AtMost :
      (f : ℕ) (remain : Bytes) (buf : Token m)
      → length remain < f
      → AtMost (length remain) (scan_all makers f remain buf)
  unfolding scan_all
  scan_all-AtMost zero remain buf h = absurd (omega arith)
  scan_all-AtMost (suc f) remain buf h =
      more (scan makers (length remain + 1) remain buf)
        (scan-Advances (length remain + 1) remain buf (omega arith))
        (λ r buf less. scan_all-AtMost f r buf (omega arith))
    where
      longer :
          (k n : ℕ) (t : Token m) (o : Option (List (Token m)))
          → k < n
          → AtMost k o
          → AtMost n (cons_token makers t o)
      longer k n t none less e = e
      longer k n t (some ts) less e = omega (arith, e)

      more :
          (o : Scanned makers)
          → Advances remain o
          → ((r : Bytes) (buf : Token m)
              → length r < length remain
              → AtMost (length r) (scan_all makers f r buf))
          → AtMost (length remain) (and_more makers o (λ t. scan_all makers f t.remain t.buf))
      more none e rec = e
      more (some (false, t)) e rec = omega arith
      more (some (true, t)) e rec =
          longer (length t.remain) (length remain) t.buf (scan_all makers f t.remain t.buf) e
            (rec t.remain t.buf e)

  -- The loop of `ParseQuery` over the tokens ends on every query, with at most one token for each
  -- byte.
  pub tokens-AtMost : (query : Bytes) → AtMost (length query) (tokens makers query)
  unfolding tokens
  tokens-AtMost query = scan_all-AtMost (length query + 1) query lparen (omega arith)
