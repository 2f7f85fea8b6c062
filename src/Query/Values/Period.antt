-- ===== src/Query/Values/Period.antt =====
-- internal/query/valuematcher.go: what a time matcher matches, and its `TimeRange`.
use ayd.Common.{
  ℕ, zero, suc, ◌≤◌, ◌↔◌, Bool, true, false, ◌≡◌, refl, arith, List, [], ◌∷◌, Bytes, codes,
  bytes_eq, if◌then◌else◌, ◌&&◌,
}
use ayd.Api.Record.{Time, Record, Extra, message}
use ayd.Query.Ast.{simple_query, field_query, match, match_simple, match_field, match_extra}
use ayd.Query.TimeRange.{time_range, value_range}
use ayd.Query.TimeRange.Period.{InRange}
use ayd.Query.Glob.{exact, string_match, contains}
use ayd.Query.Values.{
  Standard, GoValue, compared, TimeMatcher, time_matcher_range, match_instant, op_includes,
  time_value, ValueMatcher,
}
use ayd.Query.Values.Match.{value_matchers, value_match, text_match, time_of}

-- The matchers of times that the parser makes, for times behind the zero instant.
pub record IsPeriod (m : TimeMatcher) : Type 0 where
  pub operator_in : m.op ≤ 5
  pub lasts : 1 ≤ m.resolution
  pub starts : 1 ≤ m.value

at_operator :
    (op value resolution : ℕ) (str : Bytes) (t : Time)
    → op ≤ 5
    → 1 ≤ resolution
    → 1 ≤ value
    → match_instant (record { op = op; value = value; resolution = resolution; str = str }) t ≡ true
      ↔ InRange
          (time_matcher_range
            (record { op = op; value = value; resolution = resolution; str = str }))
          t
unfolding match_instant time_matcher_range compared
at_operator zero v r s t ho hr hv = ((λ h. ground arith), λ h. ground arith)
at_operator (suc zero) v r s t ho hr hv = ((λ h. ground arith), λ h. ground arith)
at_operator (suc (suc zero)) v r s t ho hr hv = ((λ h. ground arith), λ h. ground arith)
at_operator (suc (suc (suc zero))) v r s t ho hr hv = ((λ h. ground arith), λ h. ground arith)
at_operator (suc (suc (suc (suc zero)))) v r s t ho hr hv = ((λ h. ground arith), λ h. ground arith)
at_operator (suc (suc (suc (suc (suc zero))))) v r s t ho hr hv =
    ((λ h. ground arith), λ h. ground arith)
at_operator (suc (suc (suc (suc (suc (suc n)))))) v r s t ho hr hv = absurd (omega arith)

-- `Match` of a time matcher holds of the instants in its `TimeRange`, both ends included, and of no
-- others, for each of the six operators.
pub match_instant-InRange :
    (m : TimeMatcher) (t : Time)
    → IsPeriod m
    → (match_instant m t ≡ true) ↔ InRange (time_matcher_range m) t
match_instant-InRange m t h =
    at_operator m.op m.value m.resolution m.str t h.operator_in h.lasts h.starts

module _ (std : Standard) where
  -- No extra field has the name "time".
  abbrev pub NoTime : List (record { key : Bytes; value : Extra (GoValue std.Float) }) → Type 0
  NoTime [] = Unit
  NoTime (e ∷ es) = (bytes_eq (codes "time") e.key ≡ false) × NoTime es

  pass_field :
      (a b rest : Bool) → a ≡ false → rest ≡ false → (if a && b then true else rest) ≡ false
  pass_field a b rest h k = ground arith

  match_extra-NoTime :
      (v : ValueMatcher std.Float)
      (es : List (record { key : Bytes; value : Extra (GoValue std.Float) }))
      → NoTime es
      → match_extra (value_matchers std) (exact (codes "time")) v es ≡ false
  unfolding match_extra text_match string_match
  match_extra-NoTime v [] h = refl
  match_extra-NoTime v (e ∷ es) h = pass_field _ _ _ h.0 (match_extra-NoTime v es h.1)

  if_lem : (b : Bool) → (if b then true else false) ≡ b
  if_lem true = refl
  if_lem false = refl

  field_time_match :
      (m : TimeMatcher) (r : Record (GoValue std.Float))
      → NoTime r.extra
      → match (value_matchers std) (field_query (exact (codes "time")) (time_value m)) r
        ≡ match_instant m r.time
  unfolding match match_field text_match string_match value_match time_of bytes_eq
  field_time_match m r h =
      rw (match_extra-NoTime (time_value m) r.extra h) (if_lem (match_instant m r.time))

  -- A query for the field "time", such as time>=2021-02-03, matches exactly the records of its
  -- period, provided that no extra field of the record is named "time" as well.
  pub field_time-InRange :
      (m : TimeMatcher) (r : Record (GoValue std.Float))
      → IsPeriod m
      → NoTime r.extra
      → (match (value_matchers std) (field_query (exact (codes "time")) (time_value m)) r ≡ true)
        ↔ InRange
            (time_range {m = value_matchers std}
              (field_query (exact (codes "time")) (time_value m)))
            r.time
  unfolding time_range value_range text_match string_match bytes_eq
  field_time-InRange m r h extra =
      rw (field_time_match m r extra) (match_instant-InRange m r.time h)

  included :
      (m : TimeMatcher) (s : Bytes)
      → m.op ≡ op_includes
      → contains s m.str ≡ true
      → value_match std (time_value m) (message s) ≡ true
  unfolding value_match
  included m s ho hc = rw (ho, hc) refl

  by_message :
      (v : ValueMatcher std.Float) (r : Record (GoValue std.Float))
      → value_match std v (message r.message) ≡ true
      → match_simple (value_matchers std) v r ≡ true
  unfolding match_simple
  by_message v r h = ground arith

  -- The message of a record may match by its text.
  pub simple_time_match :
      (m : TimeMatcher) (r : Record (GoValue std.Float))
      → m.op ≡ op_includes
      → contains r.message m.str ≡ true
      → match (value_matchers std) (simple_query (time_value m)) r ≡ true
  unfolding match
  simple_time_match m r ho hc = by_message (time_value m) r (included m r.message ho hc)
