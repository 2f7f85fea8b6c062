-- ===== src/Query/Values/Order.antt =====
-- internal/query/valuematcher.go: the time matchers of one text, for its different operators.
use ayd.Common.{
  ℕ, ◌+◌, ◌≤◌, Bool, true, false, ◌≡◌, refl, Option, none, some, [], Bytes, length, arith,
  if◌then◌else◌, ◌==◌, ltb, leb, ◌&&◌, ◌∙◌, sym, ap,
}
use mathlib.Core.Path.{subst}
use ayd.Api.Record.{Time}
use ayd.Api.ParseTime.{Read, value, reject, panic, ZonedTime}
use ayd.Api.ParseTime.Formats.{parse_time_with_resolution}
use ayd.Api.ParseTime.Positive.{Returns, IsLasting, parse_time_with_resolution_lasts}
use ayd.Query.Values.{
  Standard, TimeMatcher, match_instant, compared, op_includes, op_equal, op_less_than,
  op_less_equal, op_greater_than, op_greater_equal,
}
use ayd.Query.Values.Make.{
  matcher_or, clock_layout, with_resolution, zoned_time, on_day, day_ns, parse_time_value,
}

-- What a text is read as: its first instant and its resolution.
abbrev Reading : Type 0
Reading = Option (Time × ℕ)

abbrev Lasts : Reading → Type 0
Lasts none = Unit
Lasts (some (t, resolution)) = 1 ≤ resolution

abbrev first_reading : Reading → Reading → Reading
first_reading none rest = rest
first_reading (some r) rest = some r

matcher_or_chain :
    (op : ℕ) (s : Bytes) (a b c : Reading)
    → matcher_or op s a (matcher_or op s b (matcher_or op s c none))
      ≡ matcher_or op s (first_reading a (first_reading b c)) none
matcher_or_chain op s none none c = refl
matcher_or_chain op s none (some b) c = refl
matcher_or_chain op s (some a) b c = refl

first_reading-Lasts : (a b : Reading) → Lasts a → Lasts b → Lasts (first_reading a b)
first_reading-Lasts none b h k = k
first_reading-Lasts (some a) b h k = h

with_resolution-Lasts : (o : Option Time) (n : ℕ) → 1 ≤ n → Lasts (with_resolution o n)
with_resolution-Lasts none n h = tt
with_resolution-Lasts (some t) n h = h

clock_layout_lasts : (n : ℕ) → 1 ≤ (clock_layout n).1
clock_layout_lasts n = ground arith

day_reading : Standard → Bytes → Reading
day_reading std s = if length s == 10 then with_resolution (std.parse_day s) day_ns else none

clock_reading : Standard → Bytes → Reading
clock_reading std s =
    with_resolution (on_day std.midnight (std.parse_clock (clock_layout (length s)).0 s))
      (clock_layout (length s)).1

module _ (std : Standard) where
  reading : Bytes → Reading
  reading s =
      first_reading (zoned_time std (parse_time_with_resolution std.parse_layout s true))
        (first_reading (day_reading std s) (clock_reading std s))

  zoned_time-Lasts : (r : Read (ZonedTime × ℕ)) → Returns IsLasting r → Lasts (zoned_time std r)
  zoned_time-Lasts (value (t, n)) h = h
  zoned_time-Lasts reject h = tt
  zoned_time-Lasts panic h = tt

  day_reading-Lasts : (s : Bytes) → Lasts (day_reading std s)
  unfolding day_reading
  day_reading-Lasts s = go (length s == 10)
    where
      go : (b : Bool) → Lasts (if b then with_resolution (std.parse_day s) day_ns else none)
      go true = with_resolution-Lasts _ _ (omega arith)
      go false = tt

  reading-Lasts : (s : Bytes) → Lasts (reading s)
  unfolding reading clock_reading
  reading-Lasts s =
      first_reading-Lasts _ _
        (zoned_time-Lasts _ (parse_time_with_resolution_lasts std.parse_layout s true))
        (first_reading-Lasts _ _ (day_reading-Lasts s)
          (with_resolution-Lasts _ _ (clock_layout_lasts (length s))))

  parse_time_value-reading :
      (op : ℕ) (s : Bytes) → parse_time_value std op s ≡ matcher_or op s (reading s) none
  unfolding parse_time_value reading day_reading clock_reading
  parse_time_value-reading op s =
      matcher_or_chain op s (zoned_time std (parse_time_with_resolution std.parse_layout s true))
        (day_reading std s) (clock_reading std s)

-- What the matcher says about an instant, where there is one.
abbrev judged : Option TimeMatcher → Time → Bool
judged none t = false
judged (some m) t = match_instant m t

abbrev pub Splits : (ℕ → Option TimeMatcher) → TimeMatcher → Time → Type 0
Splits parsed m t =
    (judged (parsed op_less_than) t ≡ ltb t m.value)
    × (judged (parsed op_less_equal) t ≡ ltb t (m.value + m.resolution))
    × (judged (parsed op_greater_equal) t ≡ leb m.value t)
    × (judged (parsed op_greater_than) t ≡ leb (m.value + m.resolution) t)
    × (judged (parsed op_equal) t ≡ (leb m.value t && ltb t (m.value + m.resolution)))
    × (judged (parsed op_includes) t ≡ (leb m.value t && ltb t (m.value + m.resolution)))

value_or_zero : Option TimeMatcher → Time
value_or_zero none = 0
value_or_zero (some m) = m.value

resolution_or_zero : Option TimeMatcher → ℕ
resolution_or_zero none = 0
resolution_or_zero (some m) = m.resolution

op_or_zero : Option TimeMatcher → ℕ
op_or_zero none = 0
op_or_zero (some m) = m.op

str_or_empty : Option TimeMatcher → Bytes
str_or_empty none = []
str_or_empty (some m) = m.str

at_reading :
    (s : Bytes) (r : Reading) (m : TimeMatcher) (t : Time)
    → Lasts r
    → matcher_or op_includes s r none ≡ some m
    → (1 ≤ m.resolution) × Splits (λ op. matcher_or op s r none) m t
unfolding match_instant compared value_or_zero resolution_or_zero
at_reading s none m t h e = cc
at_reading s (some (v, n)) m t h e =
    let start : v ≡ m.value = ap value_or_zero e in
    let lasts : n ≡ m.resolution = ap resolution_or_zero e in
    (
      omega arith,
      (ground arith, ground arith, ground arith, ground arith, ground arith, ground arith),
    )

module _ (std : Standard) where
  of_reading :
      (op : ℕ) (s : Bytes) (r : Reading) (m : TimeMatcher)
      → matcher_or op s r none ≡ some m
      → (m.op ≡ op) × (m.str ≡ s)
  unfolding op_or_zero str_or_empty
  of_reading op s none m e = absurd (cc)
  of_reading op s (some r) m e = (sym (ap op_or_zero e), sym (ap str_or_empty e))

  -- The matcher keeps the operator and the text that it was made of.
  pub parse_time_value_made :
      (op : ℕ) (s : Bytes) (m : TimeMatcher)
      → parse_time_value std op s ≡ some m
      → (m.op ≡ op) × (m.str ≡ s)
  parse_time_value_made op s m h =
      of_reading op s (reading std s) m (sym (parse_time_value-reading std op s) ∙ h)

  -- Where a text is read as a time at all, the matchers of that text for the six operators compare
  -- an instant with one period of at least a nanosecond, which starts at the value of the matcher
  -- without an operator and lasts for its resolution: `<` is before it and `<=` before its end,
  -- `>=` is from its start on and `>` from its end on, and `=` and no operator are within it.
  pub parse_time_value-Splits :
      (s : Bytes) (m : TimeMatcher) (t : Time)
      → parse_time_value std op_includes s ≡ some m
      → (1 ≤ m.resolution) × Splits (λ op. parse_time_value std op s) m t
  parse_time_value-Splits s m t h =
      let read : (op : ℕ) → matcher_or op s (reading std s) none ≡ parse_time_value std op s =
        λ op. sym (parse_time_value-reading std op s) in
      subst (λ parsed. (1 ≤ m.resolution) × Splits parsed m t) (λ i op. read op i)
        (at_reading s (reading std s) m t (reading-Lasts std s) (read op_includes ∙ h))
