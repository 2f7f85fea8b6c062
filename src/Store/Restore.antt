-- ===== src/Store/Restore.antt =====
-- internal/store/store.go: `Restore` and `restoreOneFile`, over what opening and reading the log
-- files gives.
pub mod Sound
use ayd.Common.{
  ℕ, ◌+◌, ◌-◌, Bool, true, false, List, [], ◌∷◌, Option, none, some, ltb, if◌then◌else◌, min,
}
use mathlib.Core.List.{reverse}
use ayd.Api.Record.{Url, Record}
use ayd.Store.History.{ProbeHistoryMap, set_inactive}
use ayd.Store.Incident.{Incidents}
use ayd.Store.Report.{record_history, is_recorded}

abbrev pub log_restore_bytes : ℕ
log_restore_bytes = 10485760

-- A path of `ListAll`: there is no file, opening or seeking fails, or the file has a size and, for
-- each count of bytes, the lines in that many of its last bytes. A line is `none` where
-- `UnmarshalJSON` fails.
pub data LogFile (X : Type 0) : Type 0 where
  missing : LogFile X
  unreadable : LogFile X
  readable : ℕ → (ℕ → List (Option (Record X))) → LogFile X

-- The state after reading, with the size that is returned or as it is at an error.
pub data Outcome (X : Type 0) : Type 0 where
  done : Incidents X → ℕ → Outcome X
  failed : Incidents X → Outcome X

-- `if err != nil { return err }`, and what comes after it.
abbrev pub and_then :
    {X : Type 0} → Outcome X → (Incidents X → ℕ → Incidents X × Bool) → Incidents X × Bool
and_then (failed s) rest = (s, false)
and_then (done s n) rest = rest s n

module _ {X : Type 0} where
  -- `for k := range s.probeHistory { s.probeHistory[k].setInactive() }`
  unfoldable pub set_all_inactive : ProbeHistoryMap X → ProbeHistoryMap X
  unfolding set_inactive
  set_all_inactive [] = []
  set_all_inactive ((k, ph) ∷ hs) = (k, set_inactive ph) ∷ set_all_inactive hs

  abbrev pub finish : Incidents X × Bool → Incidents X × Bool
  finish (s, false) = (s, false)
  finish (s, true) = (record s { probe_history = set_all_inactive s.probe_history }, true)

-- `hide_password` sets the user of a URL with a password to one with the password `xxxxx`.
module _ {X : Type 0} (hide_password : Url → Url) where
  -- One turn of the loop over the lines.
  unfoldable pub restore_line : Incidents X → Option (Record X) → Incidents X
  unfolding record_history is_recorded
  restore_line s none = s
  restore_line s (some r) =
      let r' : Record X = record r { target = hide_password r.target } in
      if is_recorded r'.target then record_history s r'.target r' false else s

  unfoldable pub restore_lines : Incidents X → List (Option (Record X)) → Incidents X
  restore_lines s [] = s
  restore_lines s (line ∷ lines) = restore_lines (restore_line s line) lines

  -- `restoreOneFile`
  unfoldable pub restore_one_file : Incidents X → LogFile X → ℕ → Outcome X
  unfolding restore_lines
  restore_one_file s missing max_size = done s 0
  restore_one_file s unreadable max_size = failed s
  restore_one_file s (readable size lines) max_size =
      done (restore_lines s (lines (min size max_size))) size

  -- The loop of `Restore` over the paths, the newest first, and the bytes loaded so far. The flag
  -- tells whether no error stopped it.
  unfoldable pub restore_files : Incidents X → List (LogFile X) → ℕ → Incidents X × Bool
  unfolding restore_one_file
  restore_files s [] loaded = (s, true)
  restore_files s (file ∷ files) loaded =
      if ltb log_restore_bytes loaded
      then (s, true)
      else and_then (restore_one_file s file (log_restore_bytes - loaded))
          (λ s n. restore_files s files (loaded + n))

  -- `Restore`, with whether the path is empty and the files of `ListAll`, the oldest first.
  unfoldable pub restore : Incidents X → Bool → List (LogFile X) → Incidents X × Bool
  unfolding restore_files set_all_inactive
  restore s is_empty files =
      if is_empty
      then (s, true)
      else finish (restore_files (record s { probe_history = [] }) (reverse files) 0)
