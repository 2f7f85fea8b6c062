-- ===== src/Api/ParseTime/Positive.antt =====
-- lib-ayd/time.go: the resolution that comes with a time is at least a nanosecond.
use ayd.Common.{
  ℕ, zero, suc, ◌+◌, ◌-◌, ◌*◌, ◌≤◌, Bool, true, false, not, ◌&&◌, List, [], ◌∷◌, Option, none, some,
  Bytes, ltb, leb, ◌==◌, if◌then◌else◌, length, arith,
}
use Prim.Native.Nat.{◌/◌}
use ayd.Api.ParseTime.{
  Read, value, reject, panic, ◌>>=◌, at, both, digit_at, parse_2_digits, DateParts, Zone,
  ClockParts, ZonedTime, clock, fraction_digit, fraction, with_fraction, with_seconds, with_minutes,
  with_hour, extended_fraction, any_fraction, parse_time, date_in_range, zone_or_default,
  parse_date, parse_time_zone, parse_rfc3339, second_ns,
}
use ayd.Api.ParseTime.Formats.{
  Layout, is_weekday, digit_formats, weekday_formats, time_formats, first_parsed, parsed_or,
  or_formats, parse_time_with_resolution,
}

-- What is returned has the property, where anything is returned.
abbrev pub Returns {ℓ} : {A : Type ℓ} → (A → Type 0) → Read A → Type 0
Returns P (value a) = P a
Returns P reject = Unit
Returns P panic = Unit

Returns->>= {ℓ κ} :
    {A : Type ℓ} {B : Type κ} (P : A → Type 0) (Q : B → Type 0) (m : Read A) (f : A → Read B)
    → Returns P m
    → ((a : A) → P a → Returns Q (f a))
    → Returns Q (m >>= f)
Returns->>= P Q (value a) f h k = k a h
Returns->>= P Q reject f h k = tt
Returns->>= P Q panic f h k = tt

Returns-then {ℓ κ} :
    {A : Type ℓ} {B : Type κ} (Q : B → Type 0) (m : Read A) (f : A → Read B)
    → ((a : A) → Returns Q (f a))
    → Returns Q (m >>= f)
Returns-then Q (value a) f k = k a
Returns-then Q reject f k = tt
Returns-then Q panic f k = tt

module _ {ℓ} {A : Type ℓ} (P : A → Type 0) where
  Returns-at :
      (s : Bytes) (i : ℕ) (f : ℕ → Read A) → ((c : ℕ) → Returns P (f c)) → Returns P (at s i f)
  Returns-at [] i f k = tt
  Returns-at (c ∷ s) zero f k = k c
  Returns-at (c ∷ s) (suc i) f k = Returns-at s i f k

  Returns-if :
      (b : Bool) (x y : Read A) → Returns P x → Returns P y → Returns P (if b then x else y)
  Returns-if true x y h k = h
  Returns-if false x y h k = k

abbrev tens : ℕ → ℕ
tens zero = 1
tens (suc n) = 10 * tens n

fraction_digit-Returns :
    (s : Bytes) (pos end r : ℕ) → Returns (λ (x : ℕ × ℕ). r / 10 ≤ x.1) (fraction_digit s pos end r)
unfolding fraction_digit
fraction_digit-Returns s pos end r =
    Returns-if _ (ltb pos end) _ _ (Returns-then _ (digit_at s pos) _ (λ d. omega arith))
      (omega arith)

fraction-Returns :
    (s : Bytes) (left pos end n r : ℕ)
    → tens left ≤ r
    → Returns (λ (x : ℕ × ℕ). 1 ≤ x.1) (fraction s left pos end n r)
unfolding fraction
fraction-Returns s zero pos end n r h = h
fraction-Returns s (suc left) pos end n r h =
    Returns->>= (λ (x : ℕ × ℕ). r / 10 ≤ x.1) _ (fraction_digit s pos end r) _
      (fraction_digit-Returns s pos end r)
      (λ (d, r') le. fraction-Returns s left (pos + 1) end (n * 10 + d) r' (omega arith))

second : 1 ≤ second_ns
second = omega arith

minute : 1 ≤ 60 * second_ns
minute = omega arith

abbrev Lasting : ClockParts → Type 0
Lasting c = 1 ≤ c.resolution

with_fraction-Returns :
    (s : Bytes) (a b c start end : ℕ) → Returns Lasting (with_fraction s a b c start end)
with_fraction-Returns s a b c start end =
    let hms = both (parse_2_digits s a) (both (parse_2_digits s b) (parse_2_digits s c)) in
    Returns->>= (λ (x : (ℕ × (ℕ × ℕ)) × (ℕ × ℕ)). 1 ≤ x.1.1) Lasting
      (both hms (fraction s 9 start end 0 second_ns))
      (λ ((h, (m, sec)), (n, r)). value (clock h m sec n r))
      (both-Returns hms _ (fraction-Returns s 9 start end 0 second_ns (omega arith))) (λ x le. le)
  where
    both-Returns :
        (m : Read (ℕ × (ℕ × ℕ))) (k : Read (ℕ × ℕ))
        → Returns (λ (x : ℕ × ℕ). 1 ≤ x.1) k
        → Returns (λ (x : (ℕ × (ℕ × ℕ)) × (ℕ × ℕ)). 1 ≤ x.1.1) (both m k)
    both-Returns (value a) (value b) h = h
    both-Returns (value a) reject h = tt
    both-Returns (value a) panic h = tt
    both-Returns reject (value b) h = tt
    both-Returns reject reject h = tt
    both-Returns reject panic h = tt
    both-Returns panic k h = tt

any_fraction-Returns : (s : Bytes) (start end : ℕ) → Returns Lasting (any_fraction s start end)
any_fraction-Returns s start end = Returns-if Lasting (not (ltb 7 (end - start))) reject _ tt (
    Returns-at Lasting s (start + 6) _ (λ c.
      Returns-if Lasting (c == b'.') _ _
        (with_fraction-Returns s start (start + 2) (start + 4) (start + 7) end) extended))
  where
    extended : Returns Lasting (extended_fraction s start end)
    extended = Returns-if Lasting (not (ltb 9 (end - start))) reject _ tt (
        Returns-at Lasting s (start + 8) _ (λ d.
          Returns-if Lasting (not (d == b'.')) reject _ tt
            (with_fraction-Returns s start (start + 3) (start + 6) (start + 9) end)))

parse_time-Returns : (s : Bytes) (start end : ℕ) → Returns Lasting (parse_time s start end)
unfolding parse_time
parse_time-Returns s start end =
    Returns-if Lasting (end - start == 8) _ _ (seconds start (start + 3) (start + 6)) (
      Returns-if Lasting (end - start == 6) _ _ (seconds start (start + 2) (start + 4)) (
        Returns-if Lasting (end - start == 5) _ _ (minutes start (start + 3)) (
          Returns-if Lasting (end - start == 4) _ _ (minutes start (start + 2)) (
            Returns-if Lasting (end - start == 2) _ _ (hour start)
              (any_fraction-Returns s start end)))))
  where
    seconds : (a b c : ℕ) → Returns Lasting (with_seconds s a b c)
    seconds a b c =
        Returns-then Lasting
          (both (parse_2_digits s a) (both (parse_2_digits s b) (parse_2_digits s c)))
          (λ (h, (m, sec)). value (clock h m sec 0 second_ns)) (λ _. second)

    minutes : (a b : ℕ) → Returns Lasting (with_minutes s a b)
    minutes a b =
        Returns-then Lasting (both (parse_2_digits s a) (parse_2_digits s b))
          (λ (h, m). value (clock h m 0 0 (60 * second_ns))) (λ _. minute)

    hour : (a : ℕ) → Returns Lasting (with_hour s a)
    hour a =
        Returns-then Lasting (parse_2_digits s a) (λ h. value (clock h 0 0 0 (3600 * second_ns)))
          (λ _. omega arith)

abbrev pub IsLasting : ZonedTime × ℕ → Type 0
IsLasting (t, resolution) = 1 ≤ resolution

date_in_range-Returns :
    (d : DateParts) (c : ClockParts) (z : Zone)
    → Lasting c
    → Returns IsLasting (date_in_range d c z)
unfolding date_in_range
date_in_range-Returns d c z h = go _ _
  where
    go :
        (b : Bool) (t : ZonedTime)
        → Returns IsLasting (if b then reject else value (t, c.resolution))
    go b t = Returns-if IsLasting b reject (value (t, c.resolution)) tt h

parse_rfc3339-Returns :
    (s : Bytes) (has_default : Bool) → Returns IsLasting (parse_rfc3339 s has_default)
unfolding parse_rfc3339
parse_rfc3339-Returns s has_default = Returns-then IsLasting (parse_date s) _ (λ d.
    Returns-then IsLasting (zone_or_default has_default (length s) (parse_time_zone s)) _
      (λ (z, end).
        Returns->>= Lasting IsLasting _ _ (parse_time-Returns s d.hour_pos end)
          (λ c le. date_in_range-Returns d c z le)))

AllLasting : List (Layout × ℕ) → Type 0
AllLasting [] = Unit
AllLasting ((l, resolution) ∷ ls) = (1 ≤ resolution) × AllLasting ls

first_parsed-Returns :
    (parse : Layout → Bytes → Option ZonedTime) (s : Bytes) (ls : List (Layout × ℕ))
    → AllLasting ls
    → Returns IsLasting (first_parsed parse s ls)
unfolding first_parsed AllLasting
first_parsed-Returns parse s [] h = tt
first_parsed-Returns parse s ((l, n) ∷ ls) h =
    go (parse l s) _ (first_parsed-Returns parse s ls h.1)
  where
    go :
        (o : Option ZonedTime) (rest : Read (ZonedTime × ℕ))
        → Returns IsLasting rest
        → Returns IsLasting (parsed_or o n rest)
    go none rest k = k
    go (some t) rest k = h.0

one_more :
    (l : Layout) (n : ℕ) (ls : List (Layout × ℕ)) → 1 ≤ n → AllLasting ls → AllLasting ((l, n) ∷ ls)
unfolding AllLasting
one_more l n ls h k = (h, k)

no_more : AllLasting []
unfolding AllLasting
no_more = tt

choose_lasting :
    (b : Bool) (x y : List (Layout × ℕ))
    → AllLasting x
    → AllLasting y
    → AllLasting (if b then x else y)
choose_lasting true x y h k = h
choose_lasting false x y h k = k

digit_formats-AllLasting : (d : ℕ) → AllLasting (digit_formats d)
digit_formats-AllLasting d =
    choose_lasting (d == b'/') _ _ (one_more _ _ _ second no_more) (
      choose_lasting (d == b' ') _ _ (one_more _ _ _ minute (one_more _ _ _ minute no_more))
        no_more)

weekday_formats-AllLasting : (d : ℕ) → AllLasting (weekday_formats d)
weekday_formats-AllLasting d =
    choose_lasting (d == b',') _ _ (one_more _ _ _ second (one_more _ _ _ second no_more)) (
      choose_lasting (d == b' ') _ _
        (one_more _ _ _ second (one_more _ _ _ second (one_more _ _ _ second no_more)))
        (one_more _ _ _ second no_more))

time_formats-Returns : (s : Bytes) → Returns AllLasting (time_formats s)
unfolding time_formats
time_formats-Returns s = Returns-at AllLasting s 0 _ (λ c.
    Returns-if AllLasting (leb b'0' c && leb c b'9') _ _
      (Returns-at AllLasting s 2 _ digit_formats-AllLasting)
      (Returns-if AllLasting (is_weekday c) _ _
        (Returns-at AllLasting s 3 _ weekday_formats-AllLasting) no_more))

-- Whatever `ParseTimeWithResolution` makes of a text, the resolution is at least one nanosecond.
pub parse_time_with_resolution_lasts :
    (parse : Layout → Bytes → Option ZonedTime) (s : Bytes) (has_default : Bool)
    → Returns IsLasting (parse_time_with_resolution parse s has_default)
unfolding parse_time_with_resolution
parse_time_with_resolution_lasts parse s has_default =
    go _ _ (parse_rfc3339-Returns s has_default) (
      Returns-if IsLasting (ltb (length s) 19) reject _ tt (
        Returns->>= AllLasting IsLasting _ _ (time_formats-Returns s)
          (first_parsed-Returns parse s)))
  where
    go :
        (a b : Read (ZonedTime × ℕ))
        → Returns IsLasting a
        → Returns IsLasting b
        → Returns IsLasting (or_formats a b)
    go (value t) b h k = h
    go reject b h k = k
    go panic b h k = tt
