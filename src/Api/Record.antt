-- ===== src/Api/Record.antt =====
-- lib-ayd/record.go and url.go, the data only. An instant is the count of nanoseconds since Go's
-- zero time; a URL is held as its scheme and the text that `URL.String` gives for it.
use ayd.Common.{ℕ, List, Bytes}
use ayd.Api.Status.{Status}

abbrev pub Time : Type 0
Time = ℕ

pub record Url : Type 0 where
  pub scheme : Bytes
  pub text : Bytes

-- The dynamic values (`any`) that a query matches. `other` holds a value of any further Go type.
pub data Value (X : Type 0) : Type 0 where
  time : Time → Value X
  status : Status → Value X
  latency : ℕ → Value X
  target : Url → Value X
  message : Bytes → Value X
  other : X → Value X

-- A value of `Record.Extra`: a slice, or a single value.
pub data Extra (X : Type 0) : Type 0 where
  one : Value X → Extra X
  many : List (Value X) → Extra X

pub record Record (X : Type 0) : Type 0 where
  pub time : Time
  pub status : Status
  pub latency : ℕ
  pub target : Url
  pub message : Bytes
  pub extra : List (record { key : Bytes; value : Extra X })
