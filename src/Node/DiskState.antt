-- ===== src/Node/DiskState.antt =====
-- node/diskstate.go: the write-ahead log and the snapshot files of one shard replica.
-- The snapshot files are `snapshotPath`, index 0, and `snapshotPath.i` for the older ones. What the
-- file system does in a call is an argument: `Io` for a snapshot, a `Wal.AppendOutcome` for the log.
-- The mutex and the `log` lines are left out.
pub mod Rotate
pub mod Load
pub mod Take
pub mod OnDisk
use doki.Prelude.{
  ℕ, zero, suc, ◌+◌, ◌-◌, String, Bool, true, false, List, [], ◌∷◌, Option, none, some, ◌==◌, leb,
  ltb, if◌then◌else◌, str_eq, not, ◌&&◌, foldl,
}
use doki.Storage
use doki.Storage.{Kv}
use doki.Wal
use doki.Wal.{Wal}
use doki.Snapshot
use doki.Snapshot.{Snapshot, File, absent, Loaded}

abbrev pub Files : Type 0
Files = ℕ → File

pub record DiskState : Type 0 where
  pub wal : Wal
  pub files : Files
  pub writes_since_snapshot : ℕ
  pub snapshot_interval : ℕ
  pub snapshot_retention : ℕ

pub data Err : Type 0 where
  wal_append : Wal.Err → Err
  rotate_snapshot : Err
  save_snapshot : Snapshot.Err → Err
  truncate_wal : Wal.Err → Err
  read_wal : Err
  wal_monotonicity : Err
  bad_interval : Err
  bad_retention : Err

-- `rename_ok i` is the outcome of the rename of the file at index `i`.
pub record Io : Type 0 where
  pub rename_ok : ℕ → Bool
  pub saved : Bool
  pub truncated : Bool

-- The fields that `openDiskState` sets, over the files that it finds.
unfoldable pub open_disk_state : Wal → Files → ℕ → ℕ → Option DiskState
open_disk_state wal files interval retention =
    if interval == 0
    then none
    else if retention == 0
    then none
    else some (record {
      wal = wal;
      files = files;
      writes_since_snapshot = 0;
      snapshot_interval = interval;
      snapshot_retention = retention;
    })

write_file : Files → ℕ → File → Files
write_file fs i f j = if i == j then f else fs j

exists : File → Bool
exists absent = false
exists _ = true

-- `os.Rename` from index `i` to `i + 1`, where the file exists; `false` is an error.
shift_one : (ℕ → Bool) → ℕ → Files → Files × Bool
unfolding write_file exists
shift_one rename_ok i fs =
    if exists (fs i)
    then (if rename_ok i
        then (write_file (write_file fs (i + 1) (fs i)) i absent, true)
        else (fs, false))
    else (fs, true)

-- `os.Remove` of the file that falls out, in the first round of the loop.
free_next : ℕ → ℕ → Files → Files
unfolding write_file
free_next retention i fs = if i == retention - 1 then write_file fs (i + 1) absent else fs

-- The loop of `rotateSnapshots` from index `i` down to 1.
shift_from : (ℕ → Bool) → ℕ → ℕ → Files → Files × Bool
unfolding shift_one free_next
shift_from rename_ok retention zero fs = (fs, true)
shift_from rename_ok retention (suc i) fs =
    let (moved, fine) = shift_one rename_ok (suc i) (free_next retention (suc i) fs) in
    let rest = shift_from rename_ok retention i moved in if fine then rest else (moved, false)

unfoldable pub rotate_snapshots : (ℕ → Bool) → ℕ → Files → Files × Bool
unfolding shift_from
rotate_snapshots rename_ok retention fs =
    if leb retention 1
    then (fs, true)
    else (let (shifted, fine) = shift_from rename_ok retention (retention - 1) fs in
        if fine then shift_one rename_ok 0 shifted else (shifted, false))

-- The tail of `takeSnapshot` once the snapshot is saved: the log is emptied.
after_save : Io → DiskState → DiskState × Option Err
unfolding Wal.truncate
after_save io ds =
    let (w, failure) = Wal.truncate io.truncated ds.wal in
    elim failure [
      | none ↦ (record ds { wal = w; writes_since_snapshot = 0 }, none)
      | some e ↦ (ds, some (truncate_wal e))
    ]

unfoldable pub take_snapshot : Io → DiskState → ℕ → ℕ → Kv → DiskState × Option Err
unfolding rotate_snapshots after_save Snapshot.save write_file
take_snapshot io ds term version kv =
    let (rotated, fine) = rotate_snapshots io.rename_ok ds.snapshot_retention ds.files in
    let snap : Snapshot = record { format_version = 0; term = term; version = version; kv = kv } in
    let (file, failure) = Snapshot.save io.saved (rotated 0) snap in
    let after = record ds { files = rotated } in
    if fine
    then elim failure [
      | none ↦ after_save io (record ds { files = write_file rotated 0 file })
      | some e ↦ (after, some (save_snapshot e))
    ]
    else (after, some rotate_snapshot)

-- `resetSnapshot` has the same statements as `takeSnapshot`.
unfoldable pub reset_snapshot : Io → DiskState → ℕ → ℕ → Kv → DiskState × Option Err
reset_snapshot io ds term version kv = take_snapshot io ds term version kv

unfoldable pub maybe_snapshot : Io → DiskState → ℕ → ℕ → Kv → DiskState × Option Err
maybe_snapshot io ds term version kv =
    if leb ds.snapshot_interval ds.writes_since_snapshot
    then take_snapshot io ds term version kv
    else (ds, none)

unfoldable pub append_wal : Wal.AppendOutcome → DiskState → Wal.Entry → DiskState × Option Err
unfolding Wal.append
append_wal outcome ds e =
    let (w, failure) = Wal.append outcome ds.wal e in
    elim failure [
      | none ↦ (record ds { wal = w; writes_since_snapshot = ds.writes_since_snapshot + 1 }, none)
      | some x ↦ (record ds { wal = w }, some (wal_append x))
    ]

-- One round of the loop of `loadLatestSnapshot`: a later file wins only by a higher version.
better : Option Snapshot → Loaded → Option Snapshot
better best Loaded.missing = best
better best (Loaded.failed e) = best
better none (Loaded.found s) = some s
better (some b) (Loaded.found s) = if ltb b.version s.version then some s else some b

latest_from : ℕ → ℕ → Files → Option Snapshot → Option Snapshot
unfolding better
latest_from zero i fs best = best
latest_from (suc n) i fs best = latest_from n (i + 1) fs (better best (Snapshot.load (fs i)))

-- `none` is `exists == false`; the error that the source declares is never returned.
unfoldable pub load_latest_snapshot : ℕ → Files → Option Snapshot
unfolding latest_from
load_latest_snapshot retention fs = latest_from retention 0 fs none

monotonic_from : ℕ → List Wal.Entry → Bool
monotonic_from last [] = true
monotonic_from last (e ∷ es) = not (ltb e.version last) && monotonic_from e.version es

unfoldable pub ensure_monotonic_wal : List Wal.Entry → Bool
unfolding monotonic_from
ensure_monotonic_wal [] = true
ensure_monotonic_wal (e ∷ es) = monotonic_from e.version es

-- The variables of the replay loop of `load`.
pub record Replay : Type 0 where
  pub kv : Kv
  pub term : ℕ
  pub version : ℕ

unfoldable pub replay_kv : Kv → Wal.Entry → Kv
replay_kv kv e =
    if str_eq e.op "put"
    then Storage.with_pair kv e.key e.value
    else if str_eq e.op "delete"
    then Storage.without kv e.key
    else kv

unfoldable pub replay_entry : Replay → Wal.Entry → Replay
unfolding replay_kv
replay_entry r e = if leb e.version r.version then r else record {
  kv = replay_kv r.kv e;
  term = if ltb r.term e.term then e.term else r.term;
  version = if ltb r.version e.version then e.version else r.version;
}

unfoldable pub replay_entries : Replay → List Wal.Entry → Replay
unfolding replay_entry
replay_entries r [] = r
replay_entries r (e ∷ es) = replay_entries (replay_entry r e) es

pub record LoadResult : Type 0 where
  pub term : ℕ
  pub version : ℕ
  pub kv : Kv
  pub valid : Bool

pub data LoadOutcome : Type 0 where
  loaded : LoadResult → LoadOutcome
  load_failed : Err → LoadOutcome

-- The zero `Snapshot`, where no file was found.
unfoldable pub baseline : Option Snapshot → Replay
baseline none = record { kv = []; term = 0; version = 0 }
baseline (some s) = record { kv = s.kv; term = s.term; version = s.version }

is_fresh : Option Snapshot → List Wal.Entry → Bool
is_fresh none [] = true
is_fresh _ _ = false

-- `wal_readable` is the outcome of opening the log for reading.
unfoldable pub load : (Wal.Entry → Bool) → Bool → DiskState → LoadOutcome
unfolding load_latest_snapshot Wal.read_all ensure_monotonic_wal replay_entries baseline is_fresh
load fits wal_readable ds =
    let snap = load_latest_snapshot ds.snapshot_retention ds.files in
    let entries = Wal.read_all fits ds.wal in
    let r = replay_entries (baseline snap) entries in
    if not wal_readable
    then load_failed read_wal
    else if is_fresh snap entries
    then loaded (record { term = 0; version = 0; kv = []; valid = false })
    else if not (ensure_monotonic_wal entries)
    then load_failed wal_monotonicity
    else loaded (record { term = r.term; version = r.version; kv = r.kv; valid = true })
