-- ===== src/Store/History.antt =====
-- internal/store/probehistory.go: the records kept of each target, and who reports them.
pub mod Order
pub mod Sources
pub mod Valid
use ayd.Common.{
  ℕ, ◌-◌, Bool, true, false, not, List, [], ◌∷◌, ◌++◌, Option, none, some, Bytes, bytes_eq, length,
  drop, ltb, ◌==◌, get_last?, if◌then◌else◌, lookup, insert,
}
use mathlib.Core.List.{reverse}
use ayd.Api.Status.{Status}
use ayd.Api.Record.{Time, Url, Record}

abbrev pub probe_history_len : ℕ
probe_history_len = 60

pub record ProbeHistory (X : Type 0) : Type 0 where
  pub target : Url
  pub records : List (Record X)
  pub sources : List Bytes

-- `probeHistoryMap`, keyed by the text of the target URL.
abbrev pub ProbeHistoryMap : Type 0 → Type 0
ProbeHistoryMap X = List (Bytes × ProbeHistory X)

-- lib-ayd's `ProbeHistory`, as far as `MakeReport` fills it.
pub record ProbeReport (X : Type 0) : Type 0 where
  pub target : Url
  pub records : List (Record X)
  pub latest : Option (record { status : Status; updated : Time })

unfoldable pub has_source : Bytes → List Bytes → Bool
has_source s [] = false
has_source s (x ∷ xs) = if bytes_eq x s then true else has_source s xs

-- The loop of `removeSource`: the first that is equal is cut out.
unfoldable pub cut_source : Bytes → List Bytes → List Bytes
cut_source s [] = []
cut_source s (x ∷ xs) = if bytes_eq x s then xs else x ∷ cut_source s xs

module _ {X : Type 0} where
  unfoldable pub make_report : ProbeHistory X → ℕ → ProbeReport X
  make_report ph len = record {
    target = ph.target;
    records = drop (length ph.records - len) ph.records;
    latest = elim (get_last? ph.records) [
      | none ↦ none
      | some r ↦ some (record { status = r.status; updated = r.time })
    ];
  }

  unfoldable pub add_source : ProbeHistory X → Url → ProbeHistory X
  unfolding has_source
  add_source ph source =
      if has_source source.text ph.sources
      then ph
      else record ph { sources = ph.sources ++ source.text ∷ [] }

  unfoldable pub remove_source : ProbeHistory X → Url → ProbeHistory X
  unfolding cut_source
  remove_source ph source = record ph { sources = cut_source source.text ph.sources }

  unfoldable pub set_inactive : ProbeHistory X → ProbeHistory X
  set_inactive ph = record ph { sources = [] }

  unfoldable pub is_active : ProbeHistory X → Bool
  is_active ph = not (length ph.sources == 0)

  -- The swaps of `Append`, on the records read from the last one: the new record goes past those
  -- that are later.
  unfoldable pub swap_back : Record X → List (Record X) → List (Record X)
  swap_back r [] = r ∷ []
  swap_back r (x ∷ earlier) = if ltb r.time x.time then x ∷ swap_back r earlier else r ∷ x ∷ earlier

  -- `append(h.Records, r)` and the loop after it.
  unfoldable pub insert_record : List (Record X) → Record X → List (Record X)
  unfolding swap_back
  insert_record records r = reverse (swap_back r (reverse records))

  -- `if len(h.Records) > PROBE_HISTORY_LEN { h.Records = h.Records[1:] }`
  unfoldable pub trim : List (Record X) → List (Record X)
  trim records = if ltb probe_history_len (length records) then drop 1 records else records

  -- `hs[target]` after the record is put in.
  unfoldable pub append_to : Option (ProbeHistory X) → Record X → ProbeHistory X
  unfolding insert_record trim
  append_to (some h) r = record h { records = trim (insert_record h.records r) }
  append_to none r = record { target = r.target; records = r ∷ []; sources = [] }

  -- `probeHistoryMap.Append`
  unfoldable pub append : ProbeHistoryMap X → Url → Record X → ProbeHistoryMap X
  unfolding append_to add_source
  append hs source r =
      insert r.target.text (add_source (append_to (lookup r.target.text hs) r) source) hs

  -- `if ph, ok := hs[target.String()]; ok { return ph.isActive() }`
  abbrev pub entry_is_active : Option (ProbeHistory X) → Bool
  unfolding is_active
  entry_is_active none = false
  entry_is_active (some ph) = is_active ph

  -- `probeHistoryMap.isActive`
  unfoldable pub target_is_active : ProbeHistoryMap X → Url → Bool
  unfolding is_active
  target_is_active hs target = entry_is_active (lookup target.text hs)
