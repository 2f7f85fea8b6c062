-- ===== src/Query/Tokens/Keyword.antt =====
-- internal/query/tokenizer.go: a keyword takes a byte at least.
use ayd.Common.{
  ℕ, ◌+◌, ◌≤◌, Bool, true, false, ◌||◌, ◌≡◌, refl, sym, ◌∙◌, [], ◌∷◌, Bytes, ◌==◌, if◌then◌else◌,
  arith,
}
use mathlib.Core.Bool.{false≢true}
use ayd.Query.Tokens.{
  KeywordScan, Turn, next, skip, stop, close_buf, push_operator, starts_with_equal, is_not_equal,
  scan_operator, turn, follow, scan_bytes, new_scan, ends_keyword,
}

pub if_holds :
    {A : Type 0} (P : A → Type 0) (b : Bool) (x y : A)
    → (b ≡ true → P x)
    → (b ≡ false → P y)
    → P (if b then x else y)
if_holds P true x y f g = f refl
if_holds P false x y f g = g refl

-- A turn leaves the index alone, and ends the loop only where that is allowed.
abbrev pub GoesOn : Bool → ℕ → Turn → Type 0
GoesOn may_stop i (next s) = s.i ≡ i
GoesOn may_stop i (skip s) = s.i ≡ i
GoesOn may_stop i (stop s) = (may_stop ≡ true) × (s.i ≡ i)

pub i-close_buf : (s : KeywordScan) → (close_buf s).i ≡ s.i
unfolding close_buf
i-close_buf s = ground arith

pub scan_operator-GoesOn :
    (may_stop : Bool) (s : KeywordScan) (c : ℕ) (rest : Bytes)
    → GoesOn may_stop s.i (scan_operator s c rest)
unfolding scan_operator push_operator
scan_operator-GoesOn may_stop s c rest =
    if_holds (GoesOn may_stop s.i) (starts_with_equal rest) _ _ (λ _. i-close_buf s)
      (λ _. i-close_buf s)

pub turn-GoesOn :
    (s : KeywordScan) (c : ℕ) (rest : Bytes) → GoesOn (ends_keyword c) s.i (turn s c rest)
unfolding turn
turn-GoesOn s c rest =
    let P = GoesOn (ends_keyword c) s.i in
    if_holds P s.escape _ _ (λ _. refl)
      λ _.
        if_holds P (c == b'\\') _ _ (λ _. refl)
          λ _.
            if_holds P (c == b'"') _ _ (λ _. refl)
              λ _.
                if_holds P s.quote _ _ (λ _. refl)
                  λ _.
                    if_holds P (is_not_equal c rest) _ _ (λ _. i-close_buf s)
                      λ _.
                        if_holds P (c == b'<' || c == b'>' || c == b'=') _ _
                          (λ _. scan_operator-GoesOn (ends_keyword c) s c rest)
                          λ _.
                            if_holds P (c == b'*') _ _ (λ _. i-close_buf s)
                              λ _. if_holds P (ends_keyword c) _ _ (λ e. (e, refl)) (λ _. refl)

pub scan_bytes-i :
    (skipped : Bool) (s : KeywordScan) (rest : Bytes) → s.i ≤ (scan_bytes skipped s rest).i
unfolding scan_bytes
scan_bytes-i skipped s [] = omega arith
scan_bytes-i true s (c ∷ rest) = omega (arith, scan_bytes-i false (record s { i = s.i + 1 }) rest)
scan_bytes-i false s (c ∷ rest) =
    followed (turn s c rest) (turn-GoesOn s c rest) (λ skipped s. scan_bytes-i skipped s rest)
  where
    followed :
        (t : Turn)
        → GoesOn (ends_keyword c) s.i t
        → ((skipped : Bool) (s : KeywordScan) → s.i ≤ (scan_bytes skipped s rest).i)
        → s.i ≤ (follow t (λ skipped s. scan_bytes skipped s rest)).i
    followed (next x) h rec = omega (arith, h, rec false (record x { i = x.i + 1 }))
    followed (skip x) h rec = omega (arith, h, rec true (record x { i = x.i + 1 }))
    followed (stop x) h rec = omega (arith, h.1)

-- A keyword that begins with a byte that ends none has a byte at least.
pub scan_bytes-advances :
    (c : ℕ) (rest : Bytes) → ends_keyword c ≡ false → 1 ≤ (scan_bytes false new_scan (c ∷ rest)).i
unfolding scan_bytes
scan_bytes-advances c rest h = followed (turn new_scan c rest) (turn-GoesOn new_scan c rest)
  where
    followed :
        (t : Turn)
        → GoesOn (ends_keyword c) 0 t
        → 1 ≤ (follow t (λ skipped s. scan_bytes skipped s rest)).i
    followed (next x) e = omega (arith, e, scan_bytes-i false (record x { i = x.i + 1 }) rest)
    followed (skip x) e = omega (arith, e, scan_bytes-i true (record x { i = x.i + 1 }) rest)
    followed (stop x) e = absurd (false≢true (sym h ∙ e.0))
