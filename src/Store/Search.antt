-- ===== src/Store/Search.antt =====
-- internal/store/search.go: the search for the time from which a log is read. The file is its bytes,
-- and the JSON decoder and `api.ParseTime` are parameters. It is read and sought without an error but
-- the end of the file.
pub mod Ends
pub mod Behind
pub mod Outcome
use ayd.Common.{
  ℕ, zero, suc, ◌+◌, ◌-◌, ◌*◌, ◌≤◌, Bool, true, false, List, [], ◌∷◌, Option, none, some, Bytes,
  ltb, leb, ◌==◌, if◌then◌else◌, length, take, drop,
}
use Prim.Native.Nat.{◌/◌}
use ayd.Api.Record.{Time}

abbrev pub newline : ℕ
newline = 10

-- The variables of the loop; `buf` is the length of the buffer and `rec` is `rec.Time`.
pub record Search : Type 0 where
  pub left : ℕ
  pub right : ℕ
  pub mid : ℕ
  pub buf : ℕ
  pub rec : Bytes

abbrev pub moved : Option ℕ → Option ℕ
moved none = none
moved (some i) = some (suc i)

-- `bytes.IndexRune(line, '\n')`, with `none` for -1.
unfoldable pub line_end : Bytes → Option ℕ
line_end [] = none
line_end (c ∷ s) = if c == newline then some 0 else moved (line_end s)

abbrev pub half : ℕ → ℕ → ℕ
half left right = left + (right - left) / 2

-- `json.Unmarshal(line, &rec)` on the text of `rec.Time`: the new text, and whether there is no error;
-- and `api.ParseTime`.
pub record Decoder : Type 0 where
  pub unmarshal : Bytes → Bytes → Bytes × Bool
  pub parse_time : Bytes → Option Time

-- The variables before the loop.
abbrev pub first_search : ℕ → Search
first_search size = record { left = 0; right = size; mid = size / 2; buf = 256; rec = [] }

module _ (d : Decoder) where
  open d use {unmarshal, parse_time}

  -- The assignments to `left` or `right` and to `mid` where a line of a record was read. Where `left`
  -- has passed `right` the loop ends, and `mid` is not read again.
  unfoldable pub narrow : Search → Time → ℕ → Time → Search
  narrow s target size t =
      let left = s.mid + size + 1 in
      let right = half s.left s.right in
      if ltb t target
      then record s { left = left; mid = half left s.right }
      else record s { right = right; mid = half s.left right }

  -- `mid += int64(len(line)) + 1` and what follows.
  unfoldable pub pass_line : Search → ℕ → Search
  pass_line s size =
      let mid = s.mid + size + 1 in
      let right = half s.left s.right in
      if leb s.right mid
      then record s { right = right; mid = half s.left right }
      else record s { mid = mid }

  abbrev pub on_time : Search → Time → ℕ → Option Time → Search
  on_time s target size none = pass_line s size
  on_time s target size (some t) = narrow s target size t

  abbrev pub on_object : Search → Time → ℕ → Bytes × Bool → Search
  on_object s target size (rec, ok) =
      on_time (record s { rec = rec }) target size (if ok then parse_time rec else none)

  -- The line is empty only where a newline stands first, and then it is not looked at.
  unfoldable pub on_line : Search → Time → Bytes → Search
  on_line s target [] = s
  on_line s target (c ∷ line) =
      if c == b'{'
      then on_object s target (suc (length line)) (unmarshal (c ∷ line) s.rec)
      else pass_line s (suc (length line))

  abbrev pub on_chunk : Search → Time → Bytes → Option ℕ → Search
  on_chunk s target chunk none = record s { buf = s.buf * 2 }
  on_chunk s target chunk (some zero) = record s { mid = s.mid + 1 }
  on_chunk s target chunk (some (suc i)) = on_line s target (take (suc i) chunk)

  -- The body of the loop: reading at `mid`, which fails at the end of the file.
  unfoldable pub search_step : Bytes → Time → Search → Search
  search_step content target s =
      let chunk = take s.buf (drop s.mid content) in
      if leb (length content) s.mid
      then record s { right = half s.left s.right }
      else on_chunk s target chunk (line_end chunk)

  -- The loop. The result is the position that is sought at the end.
  unfoldable pub search_loop : ℕ → Bytes → Time → ℕ → Search → Option ℕ
  search_loop zero content target accuracy s = none
  search_loop (suc fuel) content target accuracy s = elim (ltb (s.left + accuracy) s.right) [
    | true ↦ search_loop fuel content target accuracy (search_step content target s)
    | false ↦ some s.left
  ]

  -- `searchLog`
  unfoldable pub search_log : ℕ → Bytes → Time → ℕ → Option ℕ
  search_log fuel content target accuracy =
      let size = length content in
      let found = search_loop fuel content target accuracy (first_search size) in
      if leb size accuracy then some 0 else found
