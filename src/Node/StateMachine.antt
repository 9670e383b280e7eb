-- ===== src/Node/StateMachine.antt =====
-- node/statemachine.go: the one entry point for changes of a shard's state.
-- The pointers `term` and `version` into the replica are fields here, and the replica reads them
-- through the state machine (Node/Replica). The disk state is the object that the server's
-- `diskStates` holds for the shard too.
pub mod Laws
pub mod Effects
pub mod Durability
pub mod Losses
use doki.Prelude.{
  ℕ, ◌+◌, String, Bool, true, false, List, Option, none, some, ◌==◌, ltb, u64, if◌then◌else◌,
  str_eq, not,
}
use doki.Storage
use doki.Storage.{Kv, Store}
use doki.ReplicationLog
use doki.ReplicationLog.{Entry, Log}
use doki.Wal
use doki.Node.DiskState
use doki.Node.DiskState.{DiskState, Io}

pub data ApplyMode : Type 0 where
  apply_with_wal apply_without_wal : ApplyMode

pub data SnapshotMode : Type 0 where
  snapshot_persist snapshot_no_persist : SnapshotMode

pub record StateSnapshot : Type 0 where
  pub term : ℕ
  pub version : ℕ
  pub kv : Kv

pub record StateMachine : Type 0 where
  pub kv : Store
  pub rep_log : Log
  pub term : ℕ
  pub version : ℕ
  pub ds : Option DiskState

pub data Err : Type 0 where
  non_monotonic_apply stale_term_apply : Err
  wal_append : DiskState.Err → Err
  unknown_op : Err
  disk_snapshot_reset : DiskState.Err → Err

unfoldable pub set_disk_state : StateMachine → DiskState → StateMachine
set_disk_state sm ds = record sm { ds = some ds }

unfoldable pub get : StateMachine → String → Option String
get sm key = Storage.get sm.kv key

unfoldable pub size : StateMachine → ℕ
size sm = Storage.size sm.kv

unfoldable pub snapshot : StateMachine → StateSnapshot
unfolding Storage.snapshot
snapshot sm = record { term = sm.term; version = sm.version; kv = Storage.snapshot sm.kv }

-- `walEntryFrom` of node/server.go.
unfoldable pub wal_entry_from : Entry → Wal.Entry
wal_entry_from e = record {
  term = e.term;
  version = e.version;
  op = e.op;
  key = e.key;
  value = e.value;
}

unfoldable pub log_to_disk :
    Wal.AppendOutcome → ApplyMode → Option DiskState → Entry → Option DiskState × Option Err
unfolding DiskState.append_wal wal_entry_from
log_to_disk outcome apply_with_wal (some ds) e =
    let (ds', failure) = DiskState.append_wal outcome ds (wal_entry_from e) in
    (some ds', elim failure [ none ↦ none | some x ↦ some (wal_append x) ])
log_to_disk outcome _ ds e = (ds, none)

-- The `switch entry.Op` of `Apply`; `none` is its default.
unfoldable pub apply_op : Store → Entry → Option Store
unfolding Storage.put Storage.delete
apply_op kv e =
    if str_eq e.op "put"
    then some (Storage.put kv e.key e.value)
    else if str_eq e.op "delete"
    then some (Storage.delete kv e.key)
    else none

commit : StateMachine → Entry → Option Store → StateMachine × Option Err
unfolding ReplicationLog.append
commit sm e none = (sm, some unknown_op)
commit sm e (some kv) = (
  record sm {
    kv = kv;
    version = e.version;
    term = e.term;
    rep_log = ReplicationLog.append sm.rep_log e;
  },
  none,
)

after_log : StateMachine → Entry → Option Err → StateMachine × Option Err
unfolding commit apply_op
after_log sm e (some failure) = (sm, some failure)
after_log sm e none = commit sm e (apply_op sm.kv e)

unfoldable pub apply :
    Wal.AppendOutcome → StateMachine → Entry → ApplyMode → StateMachine × Option Err
unfolding log_to_disk after_log
apply outcome sm e mode =
    if not (e.version == u64 (sm.version + 1))
    then (sm, some non_monotonic_apply)
    else if ltb e.term sm.term
    then (sm, some stale_term_apply)
    else (let (ds, failure) = log_to_disk outcome mode sm.ds e in
        after_log (record sm { ds = ds }) e failure)

persist : Io → SnapshotMode → Option DiskState → StateSnapshot → Option DiskState × Option Err
unfolding DiskState.reset_snapshot
persist io snapshot_persist (some ds) snap =
    let (ds', failure) = DiskState.reset_snapshot io ds snap.term snap.version snap.kv in
    (some ds', elim failure [ none ↦ none | some x ↦ some (disk_snapshot_reset x) ])
persist io _ ds snap = (ds, none)

unfoldable pub apply_snapshot :
    Io → StateMachine → StateSnapshot → SnapshotMode → StateMachine × Option Err
unfolding persist Storage.apply_snapshot ReplicationLog.reset
apply_snapshot io sm snap mode =
    let (ds, failure) = persist io mode sm.ds snap in
    (
      record sm {
        kv = Storage.apply_snapshot sm.kv snap.kv;
        version = snap.version;
        term = snap.term;
        rep_log = ReplicationLog.reset sm.rep_log;
        ds = ds;
      },
      failure,
    )

unfoldable pub entries_since : StateMachine → ℕ → Option (List Entry)
unfolding ReplicationLog.since
entries_since sm version = ReplicationLog.since sm.rep_log version

unfoldable pub reset_log : StateMachine → StateMachine
unfolding ReplicationLog.reset
reset_log sm = record sm { rep_log = ReplicationLog.reset sm.rep_log }

unfoldable pub log_len : StateMachine → ℕ
unfolding ReplicationLog.len
log_len sm = ReplicationLog.len sm.rep_log
