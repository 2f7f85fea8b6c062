-- ===== src/Tests/Matchers.antt =====
-- Value matchers for the runs of internal/query: times from an instant on, and texts with wildcards.
use ayd.Common.{Bool, false, [], Option, none, some, Bytes, codes, leb}
use ayd.Api.Status.{Status}
use ayd.Api.Record.{Time, Url, Value, Record, time, target, message}
use ayd.Query.Ast.{Matchers}
use ayd.Query.Glob.{StringMatcher, string_match}

pub data Condition : Type 0 where
  since : Time → Condition
  text : StringMatcher → Condition

abbrev answered : Option Bool → Bool
answered none = false
answered (some b) = b

unfoldable pub glob_match : StringMatcher → Bytes → Bool
unfolding string_match
glob_match m s = answered (string_match m s)

unfoldable pub condition_match : Condition → Value Unit → Bool
unfolding glob_match
condition_match (since start) (time t) = leb start t
condition_match (since start) v = false
condition_match (text m) (target u) = glob_match m u.text
condition_match (text m) (message s) = glob_match m s
condition_match (text m) v = false

abbrev condition_range : Condition → Option (Option Time × Option Time)
condition_range (since start) = some (some start, none)
condition_range (text m) = none

abbrev pub conditions : Matchers
conditions = record {
  Any = Unit;
  StringMatcher = StringMatcher;
  ValueMatcher = Condition;
  string_match = glob_match;
  value_match = condition_match;
  time_range = condition_range;
}

abbrev pub sample_url : Url
sample_url = record { scheme = codes "http"; text = codes "http://a.b" }

abbrev pub sample : Time → Bytes → Record Unit
sample t s = record {
  time = t;
  status = Status.failure;
  latency = 2;
  target = sample_url;
  message = s;
  extra = [];
}
