-- ===== src/ReplicationLog.antt =====
-- internal/replicationlog/replicationlog.go: the bounded log of recent writes.
-- The mutex only serialises the calls, each of which is one step here. `copy` and the re-slicing of
-- `Append` drop the oldest entry of the slice.
pub mod Laws
pub mod Since
mod Examples
use doki.Prelude.{
  ℕ, ◌+◌, String, List, [], ◌∷◌, ◌++◌, Option, none, some, length, if◌then◌else◌, ltb, leb, ◌==◌,
  u64,
}

pub record Entry : Type 0 where
  pub term : ℕ  -- uint64
  pub version : ℕ  -- uint64
  pub op : String  -- "put" or "delete"
  pub key : String
  pub value : String

pub record Log : Type 0 where
  pub entries : List Entry
  pub max_size : ℕ

-- A negative size is treated as the size 0 is.
unfoldable pub new : ℕ → Log
new max_size = record { entries = []; max_size = if max_size == 0 then 1000 else max_size }

abbrev pub tail : List Entry → List Entry
tail [] = []
tail (e ∷ es) = es

unfoldable pub append : Log → Entry → Log
append l e =
    let kept = if leb l.max_size (length l.entries) then tail l.entries else l.entries in
    record l { entries = kept ++ e ∷ [] }

-- The loop of `Since` over the entries.
unfoldable pub newer : ℕ → List Entry → List Entry
newer since_version [] = []
newer since_version (e ∷ es) =
    let rest = newer since_version es in if ltb since_version e.version then e ∷ rest else rest

since_from : ℕ → List Entry → Option (List Entry)
unfolding newer
since_from since_version [] = some []
since_from since_version (oldest ∷ es) =
    if ltb (u64 (since_version + 1)) oldest.version
    then none
    else some (newer since_version (oldest ∷ es))

-- `(nil, false)` is `none`.
unfoldable pub since : Log → ℕ → Option (List Entry)
unfolding since_from
since l since_version = since_from since_version l.entries

unfoldable pub len : Log → ℕ
len l = length l.entries

unfoldable pub reset : Log → Log
reset l = record l { entries = [] }

version_of_first : List Entry → ℕ
version_of_first [] = 0
version_of_first (e ∷ es) = e.version

unfoldable pub oldest_version : Log → ℕ
unfolding version_of_first
oldest_version l = version_of_first l.entries
