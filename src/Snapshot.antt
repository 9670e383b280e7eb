-- ===== src/Snapshot.antt =====
-- internal/snapshot/snapshot.go: full-state snapshot files.
-- `encoding/json` and the file system answer with an outcome, an argument of `save`. `Save` writes
-- a temporary file and renames it, so a call that fails leaves the file as it was.
use doki.Prelude.{ℕ, Bool, Option, none, some, ◌==◌, if◌then◌else◌}
use doki.Storage.{Kv}

abbrev pub current_format_version : ℕ
current_format_version = 1

pub record Snapshot : Type 0 where
  pub format_version : ℕ
  pub term : ℕ
  pub version : ℕ
  pub kv : Kv

-- What stands at a path.
pub data File : Type 0 where
  absent : File
  unreadable : File  -- a read error, or bytes that do not decode
  holds : Snapshot → File

pub data Err : Type 0 where
  unsupported_format read_or_parse write_or_rename : Err

-- A format version of 0 stands for the current one.
with_format : Snapshot → Snapshot
with_format s = record s {
  format_version = if s.format_version == 0 then current_format_version else s.format_version;
}

-- `done` says whether the temporary file is written, synced and renamed.
unfoldable pub save : Bool → File → Snapshot → File × Option Err
unfolding with_format
save done file s =
    if (with_format s).format_version == current_format_version
    then (if done then (holds (with_format s), none) else (file, some write_or_rename))
    else (file, some unsupported_format)

pub data Loaded : Type 0 where
  missing : Loaded
  failed : Err → Loaded
  found : Snapshot → Loaded

unfoldable pub load : File → Loaded
unfolding with_format
load absent = missing
load unreadable = failed read_or_parse
load (holds s) =
    if (with_format s).format_version == current_format_version
    then found (with_format s)
    else failed unsupported_format
