-- ===== src/Wal.antt =====
-- internal/wal/wal.go: the write-ahead log of a shard replica, as the lines of its file.
-- The file system and `encoding/json` answer each call with an outcome, an argument here; a line is
-- an encoded entry, or what a write that failed half way has left, which no longer decodes.
-- `bufio.Scanner` gives up at a line that is longer than its buffer: `fits` says which entries it
-- can take in. What a write after a torn line adds stands behind that line, where `ReadAll` does not
-- look any more, whether or not the two share a line of the file. Keys and values are texts: bytes that
-- are not UTF-8, which `encoding/json` replaces, are left out.
pub mod Laws
use doki.Prelude.{ℕ, String, Bool, List, [], ◌∷◌, ◌++◌, Option, none, some, if◌then◌else◌}

pub record Entry : Type 0 where
  pub term : ℕ  -- uint64
  pub version : ℕ  -- uint64
  pub op : String  -- "put" or "delete"
  pub key : String
  pub value : String

pub data Line : Type 0 where
  written : Entry → Line
  torn : Line

pub record Wal : Type 0 where
  pub lines : List Line

-- What `Encode` and `Sync` do in one call of `Append`.
pub data AppendOutcome : Type 0 where
  durable : AppendOutcome
  nothing_written : AppendOutcome
  partly_written : AppendOutcome
  not_synced : AppendOutcome

pub data Err : Type 0 where
  wal_encode wal_sync wal_truncate : Err

unfoldable pub append : AppendOutcome → Wal → Entry → Wal × Option Err
append durable w e = (record { lines = w.lines ++ written e ∷ [] }, none)
append nothing_written w e = (w, some wal_encode)
append partly_written w e = (record { lines = w.lines ++ torn ∷ [] }, some wal_encode)
append not_synced w e = (record { lines = w.lines ++ written e ∷ [] }, some wal_sync)

-- The argument says whether the file system truncates the file.
unfoldable pub truncate : Bool → Wal → Wal × Option Err
truncate done w = if done then (record { lines = [] }, none) else (w, some wal_truncate)

-- The scanner's loop of `ReadAll`.
unfoldable pub read_lines : (Entry → Bool) → List Line → List Entry
read_lines fits [] = []
read_lines fits (written e ∷ ls) = let rest = read_lines fits ls in if fits e then e ∷ rest else []
read_lines fits (torn ∷ ls) = []

unfoldable pub read_all : (Entry → Bool) → Wal → List Entry
unfolding read_lines
read_all fits w = read_lines fits w.lines
