-- ===== src/Api/ParseTime/Total.antt =====
-- lib-ayd/time.go: no index is out of range, whatever the text is.
use native.Mathlib.Nat.{le_refl}
use ayd.Common.{
  ℕ, zero, suc, ◌+◌, ◌-◌, ◌*◌, ◌≤◌, ◌<◌, Bool, true, false, not, ◌||◌, Bytes, ltb, ◌==◌, ==_iff,
  if◌then◌else◌, length, ◌≡◌, refl, arith, tests, Bool-cases, inl, inr,
}
use ayd.Api.ParseTime.{
  Read, ZonedTime, value, reject, panic, ◌>>=◌, both, parse_2_digits, is_date_time_delim, DateParts,
  date_at, dashed_date, parse_date, Zone, signed, parse_time_zone, ClockParts, fraction_digit,
  fraction, with_fraction, with_seconds, with_minutes, with_hour, any_fraction, parse_time,
  date_in_range, zone_or_default, parse_rfc3339,
}
use ayd.Api.ParseTime.Holds.{
  Holds, Always, Holds->>=, Holds-both, Holds-at, Holds-at_end, Holds-if, parse_2_digits-Holds,
  parse_4_digits-Holds, digit_at-Holds,
}

date_at-Holds :
    (s : Bytes) (m d h : ℕ)
    → 12 ≤ length s
    → m + 1 < 12
    → d + 1 < 12
    → Holds Always (date_at s m d h)
date_at-Holds s m d h long hm hd =
    Holds->>= Always Always _ _
      (Holds-both _ _ (parse_4_digits-Holds s (omega arith)) (
        Holds-both _ _ (parse_2_digits-Holds s m (omega arith))
          (parse_2_digits-Holds s d (omega arith))))
      (λ parts _. tt)

dashed_date-Holds : (s : Bytes) → 12 ≤ length s → Holds Always (dashed_date s)
dashed_date-Holds s n = Holds-at Always s 10 _ (omega arith) (λ c.
    Holds-if Always (not (is_date_time_delim c)) _ _ (λ _. tt)
      (λ _. Holds-at Always s 4 _ (omega arith) (λ d.
        Holds-if Always (not (d == b'-')) _ _ (λ _. tt)
          (λ _. Holds-at Always s 7 _ (omega arith) (λ e.
            Holds-if Always (not (e == b'-')) _ _ (λ _. tt)
              (λ _. date_at-Holds s 5 8 11 n (omega arith) (omega arith)))))))

parse_date-Holds : (s : Bytes) → Holds Always (parse_date s)
unfolding parse_date
parse_date-Holds s =
    Holds-if Always (ltb (length s) 12) _ _ (λ _. tt)
      (λ long. Holds-at Always s 8 _ (omega (tests, long)) (λ c.
        Holds-if Always (is_date_time_delim c) _ _
          (λ _. date_at-Holds s 4 6 9 (omega (tests, long)) (omega arith) (omega arith))
          (λ _. dashed_date-Holds s (omega (tests, long)))))

-- The zone ends the text.
abbrev Ends : Bytes → Zone × ℕ → Type 0
Ends s (zone, end) = end ≤ length s

signed-Holds : (s : Bytes) (p : ℕ) (hm : ℕ × ℕ) → p < length s → Holds (Ends s) (signed s p hm)
signed-Holds s p (h, m) lt =
    let within : p ≤ length s = omega arith in
    Holds-at (Ends s) s p _ lt (λ c.
      Holds-if (Ends s) (c == b'+') _ _ (λ _. within)
        (λ _. Holds-if (Ends s) (c == b'-') _ _ (λ _. within) (λ _. tt)))

parse_time_zone-Holds : (s : Bytes) → 12 ≤ length s → Holds (Ends s) (parse_time_zone s)
unfolding parse_time_zone
parse_time_zone-Holds s n =
    let within : length s - 1 ≤ length s = omega arith in
    Holds-at_end (Ends s) s 1 _ (omega arith) (omega arith) (λ z.
      Holds-if (Ends s) ((z == b'Z') || (z == b'z')) _ _ (λ _. within)
        (λ _. Holds-at_end (Ends s) s 3 _ (omega arith) (omega arith) (λ c.
          Holds-if (Ends s) (c == b':') _ _
            (λ _. two 5 2 6 (omega arith) (omega arith) (omega arith))
            (λ _.
              Holds-if (Ends s) ((c == b'+') || (c == b'-')) _ _ (λ _. one)
                (λ _. two 4 2 5 (omega arith) (omega arith) (omega arith))))))
  where
    two :
        (a b p : ℕ)
        → (2 ≤ a) × (a ≤ 12)
        → (2 ≤ b) × (b ≤ 12)
        → (1 ≤ p) × (p ≤ 12)
        → Holds (Ends s) (
            both (parse_2_digits s (length s - a)) (parse_2_digits s (length s - b))
            >>= signed s (length s - p))
    two a b p ha hb hp =
        Holds->>= Always (Ends s) _ _
          (Holds-both _ _ (parse_2_digits-Holds s (length s - a) (omega arith))
            (parse_2_digits-Holds s (length s - b) (omega arith)))
          (λ hm _. signed-Holds s (length s - p) hm (omega arith))

    one : Holds (Ends s) (parse_2_digits s (length s - 2) >>= λ h. signed s (length s - 3) (h, 0))
    one =
        Holds->>= Always (Ends s) _ _ (parse_2_digits-Holds s (length s - 2) (omega arith))
          (λ h _. signed-Holds s (length s - 3) (h, 0) (omega arith))

fraction_digit-Holds :
    (s : Bytes) (pos end r : ℕ) → end ≤ length s → Holds Always (fraction_digit s pos end r)
unfolding fraction_digit
fraction_digit-Holds s pos end r h =
    Holds-if Always (ltb pos end) _ _
      (λ lt. Holds->>= Always Always _ _ (digit_at-Holds s pos (omega (tests, lt))) (λ d _. tt))
      (λ _. tt)

fraction-Holds :
    (s : Bytes) (left pos end n r : ℕ) → end ≤ length s → Holds Always (fraction s left pos end n r)
unfolding fraction
fraction-Holds s zero pos end n r h = tt
fraction-Holds s (suc left) pos end n r h =
    Holds->>= Always Always _ _ (fraction_digit-Holds s pos end r h)
      (λ (d, r') _. fraction-Holds s left (pos + 1) end (n * 10 + d) r' h)

three-Holds :
    (s : Bytes) (a b c : ℕ)
    → a + 1 < length s
    → b + 1 < length s
    → c + 1 < length s
    → Holds Always (both (parse_2_digits s a) (both (parse_2_digits s b) (parse_2_digits s c)))
three-Holds s a b c ha hb hc =
    Holds-both _ _ (parse_2_digits-Holds s a ha)
      (Holds-both _ _ (parse_2_digits-Holds s b hb) (parse_2_digits-Holds s c hc))

with_fraction-Holds :
    (s : Bytes) (a b c start end : ℕ)
    → a + 1 < length s
    → b + 1 < length s
    → c + 1 < length s
    → end ≤ length s
    → Holds Always (with_fraction s a b c start end)
with_fraction-Holds s a b c start end ha hb hc h =
    Holds->>= Always Always _ _
      (Holds-both _ _ (three-Holds s a b c ha hb hc) (fraction-Holds s 9 start end 0 _ h))
      (λ _ _. tt)

any_fraction-Holds :
    (s : Bytes) (start end : ℕ) → end ≤ length s → Holds Always (any_fraction s start end)
any_fraction-Holds s start end h =
    Holds-if Always (not (ltb 7 (end - start))) _ _ (λ _. tt)
      (λ seven. Holds-at Always s (start + 6) _ (omega (tests, not_false _ seven)) (λ c.
        Holds-if Always (c == b'.') _ _
          (λ _.
            with_fraction-Holds s start (start + 2) (start + 4) (start + 7) end
              (omega (tests, not_false _ seven)) (omega (tests, not_false _ seven))
              (omega (tests, not_false _ seven)) h)
          (λ _.
            Holds-if Always (not (ltb 9 (end - start))) _ _ (λ _. tt)
              (λ nine. Holds-at Always s (start + 8) _ (omega (tests, not_false _ nine)) (λ d.
                Holds-if Always (not (d == b'.')) _ _ (λ _. tt)
                  (λ _.
                    with_fraction-Holds s start (start + 3) (start + 6) (start + 9) end
                      (omega (tests, not_false _ nine)) (omega (tests, not_false _ nine))
                      (omega (tests, not_false _ nine)) h))))))
  where
    not_false : (b : Bool) → not b ≡ false → b ≡ true
    not_false b e = ground arith

parse_time-Holds :
    (s : Bytes) (start end : ℕ) → end ≤ length s → Holds Always (parse_time s start end)
unfolding parse_time
parse_time-Holds s start end h =
    Holds-if Always (end - start == 8) _ _ (λ n. seconds 3 6 (omega arith) (same n))
      (λ _.
        Holds-if Always (end - start == 6) _ _ (λ n. seconds 2 4 (omega arith) (same n))
          (λ _.
            Holds-if Always (end - start == 5) _ _ (λ n. minutes 3 (same n))
              (λ _.
                Holds-if Always (end - start == 4) _ _ (λ n. minutes 2 (same n))
                  (λ _.
                    Holds-if Always (end - start == 2) _ _ (λ n. hour (same n))
                      (λ _. any_fraction-Holds s start end h)))))
  where
    same : {n : ℕ} → (end - start == n) ≡ true → end - start ≡ n
    same e = (==_iff _ _).0 e

    seconds :
        (b c : ℕ)
        → b ≤ c
        → end - start ≡ c + 2
        → Holds Always (with_seconds s start (start + b) (start + c))
    seconds b c le e =
        Holds->>= Always Always _ _
          (three-Holds s start (start + b) (start + c) (omega arith) (omega arith) (omega arith))
          (λ _ _. tt)

    minutes : (b : ℕ) → end - start ≡ b + 2 → Holds Always (with_minutes s start (start + b))
    minutes b e =
        Holds->>= Always Always _ _
          (Holds-both _ _ (parse_2_digits-Holds s start (omega arith))
            (parse_2_digits-Holds s (start + b) (omega arith)))
          (λ _ _. tt)

    hour : end - start ≡ 2 → Holds Always (with_hour s start)
    hour e = Holds->>= Always Always _ _ (parse_2_digits-Holds s start (omega arith)) (λ _ _. tt)

zone_or_default-Holds :
    (s : Bytes) (b : Bool) (z : Read (Zone × ℕ))
    → Holds (Ends s) z
    → Holds (Ends s) (zone_or_default b (length s) z)
zone_or_default-Holds s b (value z) h = h
zone_or_default-Holds s true reject h = le_refl _
zone_or_default-Holds s false reject h = tt
zone_or_default-Holds s b panic h = absurd h

date_in_range-Holds :
    (d : DateParts) (c : ClockParts) (z : Zone) → Holds Always (date_in_range d c z)
unfolding date_in_range
date_in_range-Holds d c z = go _ _
  where
    go : (b : Bool) (v : ZonedTime × ℕ) → Holds Always (if b then reject else value v)
    go true v = tt
    go false v = tt

parse_date_short : (s : Bytes) → ltb (length s) 12 ≡ true → parse_date s ≡ reject
unfolding parse_date
parse_date_short s h = rw h refl

pub parse_rfc3339-Holds :
    (s : Bytes) (has_default : Bool) → Holds Always (parse_rfc3339 s has_default)
unfolding parse_rfc3339
parse_rfc3339-Holds s has_default = elim (Bool-cases (ltb (length s) 12)) [
  | inl short ↦ rw (parse_date_short s short) tt
  | inr long ↦
      let zone = parse_time_zone-Holds s (omega (tests, long)) in
      Holds->>= Always Always _ _ (parse_date-Holds s) (λ d _.
        Holds->>= (Ends s) Always _ _ (zone_or_default-Holds s has_default _ zone)
          (λ (z, end) within.
            Holds->>= Always Always _ _ (parse_time-Holds s d.hour_pos end within)
              (λ c _. date_in_range-Holds d c z)))
]
