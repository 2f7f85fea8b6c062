-- ===== src/Query/Values.antt =====
-- internal/query/valuematcher.go: the value matchers. What the standard library makes of a text or of
-- a float is a parameter, and so is `ParseTimeWithResolution`, as the instant that its result is.
pub mod Make
pub mod Match
pub mod Period
pub mod Order
use Prim.Native.Nat.{◌/◌, ◌%◌, ◌^◌}
use ayd.Common.{
  ℕ, ◌+◌, ◌-◌, ◌*◌, Bool, true, false, not, ◌&&◌, ◌||◌, Option, none, some, Bytes, ltb, ◌==◌,
  if◌then◌else◌,
}
use ayd.Api.Record.{Time}
use ayd.Api.ParseTime.{ZonedTime}
use ayd.Api.ParseTime.Formats.{Layout}
use ayd.Query.TimeRange.{Range}
use ayd.Query.Glob.{StringMatcher}

-- `int64` and the types that fit in it.
pub data ℤ : Type 0 where
  pos : ℕ → ℤ
  negsuc : ℕ → ℤ

unfoldable pub int_eq : ℤ → ℤ → Bool
int_eq (pos a) (pos b) = a == b
int_eq (negsuc a) (negsuc b) = a == b
int_eq _ _ = false

unfoldable pub int_lt : ℤ → ℤ → Bool
int_lt (pos a) (pos b) = ltb a b
int_lt (pos a) (negsuc b) = false
int_lt (negsuc a) (pos b) = true
int_lt (negsuc a) (negsuc b) = ltb b a

-- `time.Duration(v) * time.Millisecond`, which wraps around.
abbrev wrap : ℕ → ℤ
wrap w = if ltb w (2 ^ 63) then pos w else negsuc (2 ^ 64 - 1 - w)

unfoldable pub milliseconds : ℤ → ℤ
milliseconds (pos n) = wrap (n * 1_000_000 % 2 ^ 64)
milliseconds (negsuc n) = wrap (2 ^ 64 - 1 - ((n + 1) * 1_000_000 - 1) % 2 ^ 64)

abbrev unix_epoch : ℕ
unix_epoch = 62_135_596_800

-- `time.Unix(int64(v), 0)`; instants before the zero instant are taken for it.
unfoldable pub unix : ℤ → Time
unix (pos n) = (unix_epoch + n) * 1_000_000_000
unix (negsuc n) = (unix_epoch - (n + 1)) * 1_000_000_000

-- The layouts "15:04", "15:04:05" and "15:04:05.999999999".
pub data ClockLayout : Type 0 where
  minutes seconds fractions : ClockLayout

-- Floats with their comparison and the conversions to and from them; the parsers of texts, with `none`
-- for an error; the instant of a parsed time; the instant at which the present day begins, and a
-- clock's time of the day, as the nanoseconds since midnight; and the texts of values that have a
-- method `String` or are printed by `%v`.
pub record Standard : Type 1 where
  pub Float : Type 0
  pub float_eq : Float → Float → Bool
  pub float_lt : Float → Float → Bool
  pub float_of_int : ℤ → Float
  pub float_of_latency : ℕ → Float
  pub float_instant : Float → Time
  pub float_duration : Float → ℤ
  pub parse_float : Bytes → Option Float
  pub parse_duration : Bytes → Option ℤ
  pub parse_layout : Layout → Bytes → Option ZonedTime
  pub zoned : ZonedTime → Time
  pub parse_day : Bytes → Option Time
  pub parse_clock : ClockLayout → Bytes → Option ℕ
  pub midnight : Time
  pub time_text : Time → Bytes
  pub latency_text : ℕ → Bytes
  pub int_text : ℤ → Bytes
  pub float_text : Float → Bytes

-- A value of another Go type than the fields of a record have: an `int`; a `float64`; a number of a
-- further type, as the `float64` of it, with its text; and any other value, with its text.
pub data GoValue (F : Type 0) : Type 0 where
  int_value : ℤ → GoValue F
  float_value : F → GoValue F
  sized_value : F → Bytes → GoValue F
  other_value : Bytes → GoValue F

-- `m.Op&opEqual != 0` and so on.
abbrev pub has_equal : ℕ → Bool
has_equal op = op % 2 == 1

abbrev pub has_less : ℕ → Bool
has_less op = op / 2 % 2 == 1

abbrev pub has_greater : ℕ → Bool
has_greater op = op / 4 % 2 == 1

-- The end of the three `Match`es that compare: whether the value is equal, less or greater, and the
-- last `return`.
unfoldable pub compared : ℕ → (equal less greater last : Bool) → Bool
compared op equal less greater last =
    if has_equal op && equal
    then true
    else if has_less op
    then less
    else if has_greater op
    then greater
    else last

pub record TimeMatcher : Type 0 where
  pub op : ℕ
  pub value : Time
  pub resolution : ℕ
  pub str : Bytes

-- The constants of operator.go.
abbrev pub op_includes : ℕ
op_includes = 0

abbrev pub op_equal : ℕ
op_equal = 1

abbrev pub op_less_than : ℕ
op_less_than = 2

abbrev pub op_less_equal : ℕ
op_less_equal = 3

abbrev pub op_greater_than : ℕ
op_greater_than = 4

abbrev pub op_greater_equal : ℕ
op_greater_equal = 5

-- `timeValueMatcher.TimeRange`
unfoldable pub time_matcher_range : TimeMatcher → Range
time_matcher_range m =
    if (m.op == op_equal) || (m.op == op_includes)
    then (some m.value, some (m.value + m.resolution - 1))
    else if m.op == op_less_than
    then (none, some (m.value - 1))
    else if m.op == op_less_equal
    then (none, some m.value)
    else if m.op == op_greater_than
    then (some (m.value + 1), none)
    else if m.op == op_greater_equal
    then (some m.value, none)
    else (none, none)

-- What `timeValueMatcher.Match` does with an instant.
unfoldable pub match_instant : TimeMatcher → Time → Bool
match_instant m t =
    compared m.op (t == m.value) (ltb t m.value) (ltb m.value t)
      (not (ltb t m.value) && ltb t (m.value + m.resolution))

pub data ValueMatcher (F : Type 0) : Type 0 where
  any_value : ValueMatcher F
  string_value : ℕ → StringMatcher → ValueMatcher F
  number_value : ℕ → F → Bytes → ValueMatcher F
  time_value : TimeMatcher → ValueMatcher F
  duration_value : ℕ → ℤ → Bytes → ValueMatcher F
