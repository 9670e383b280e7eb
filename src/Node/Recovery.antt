-- ===== src/Node/Recovery.antt =====
-- Catch-up of a follower: the `Recover` handler of node/grpc.go and node/recovery.go.
-- The exchange is one call: `recover` at the leader, then `recover_with` at the follower on the answer.
-- Each holds the replica's lock from its first access to its last. The answer of a failed call is
-- `fail`. Metrics and log lines are left out.
pub mod Loop
pub mod CatchUp
pub mod Served
pub mod History
pub mod Copied
use doki.Prelude.{
  ℕ, ◌+◌, String, Bool, true, false, List, [], ◌∷◌, Option, none, some, ◌==◌, ltb, leb, u64, not,
  ◌&&◌, ◌||◌, if◌then◌else◌, str_eq, length, map,
}
use doki.Storage
use doki.Storage.{Kv, with_pair}
use doki.ReplicationLog.{Entry}
use doki.Wal
use doki.Node.DiskState.{Io}
use doki.Node.StateMachine
use doki.Node.StateMachine.{StateMachine, StateSnapshot, apply_with_wal, snapshot_persist}
use doki.Node.Replica.{
  ReplicaState, Role, leader, healthy, lagging, recovering, unavailable, recovery_source_leader,
  recovery_source_bootstrap,
}
use doki.Node.Rpc.{
  Operation, OpType, put, delete, unspecified, Reply, reply, fail, Code, op_to_proto,
  failed_precondition,
}
use doki.Node.Election.{is_leader}

pub record LogEntry : Type 0 where
  pub term : ℕ
  pub version : ℕ
  pub op : Operation

pub data RecoverType : Type 0 where
  type_unspecified type_entries type_snapshot : RecoverType

pub record RecoverResponse : Type 0 where
  pub type : RecoverType
  pub term : ℕ
  pub version : ℕ
  pub entries : List LogEntry
  pub kv : Kv

unfoldable pub log_entry_to_proto : Entry → LogEntry
unfolding op_to_proto
log_entry_to_proto e = record {
  term = e.term;
  version = e.version;
  op = op_to_proto e.op e.key e.value;
}

unfoldable pub entries_to_proto : List Entry → List LogEntry
unfolding log_entry_to_proto
entries_to_proto [] = []
entries_to_proto (e ∷ es) = log_entry_to_proto e ∷ entries_to_proto es

-- The map's pairs, in the order of its iteration.
unfoldable pub kv_to_proto : Kv → List (String × String)
kv_to_proto kv = kv

unfoldable pub pairs_onto : Kv → List (String × String) → Kv
pairs_onto kv [] = kv
pairs_onto kv ((k, v) ∷ es) = pairs_onto (with_pair kv k v) es

unfoldable pub kv_from_proto : List (String × String) → Kv
unfolding pairs_onto
kv_from_proto es = pairs_onto [] es

unfoldable pub respond_snapshot : StateSnapshot → RecoverResponse
unfolding kv_to_proto
respond_snapshot snap = record {
  type = type_snapshot;
  term = snap.term;
  version = snap.version;
  entries = [];
  kv = kv_to_proto snap.kv;
}

unfoldable pub respond_entries : ℕ → List Entry → RecoverResponse
unfolding entries_to_proto
respond_entries version es = record {
  type = type_entries;
  term = 0;
  version = version;
  entries = entries_to_proto es;
  kv = [];
}

unfoldable pub respond_since : StateSnapshot → Option (List Entry) → RecoverResponse
unfolding respond_snapshot respond_entries
respond_since snap none = respond_snapshot snap
respond_since snap (some []) = respond_snapshot snap
respond_since snap (some (e ∷ es)) = respond_entries snap.version (e ∷ es)

-- `Recover`. By the time of its last test the two versions differ.
unfoldable pub recover : ReplicaState → ℕ → Reply RecoverResponse
unfolding respond_since StateMachine.snapshot StateMachine.entries_since is_leader
recover r since_version =
    let snap = StateMachine.snapshot r.sm in
    if not (is_leader r.role)
    then fail failed_precondition
    else if ltb snap.version since_version
    then reply (respond_snapshot snap)
    else if snap.version == since_version
    then reply (respond_entries snap.version [])
    else reply (respond_since snap (StateMachine.entries_since r.sm since_version))

unfoldable pub op_type_from_proto : OpType → String
op_type_from_proto put = "put"
op_type_from_proto delete = "delete"
op_type_from_proto unspecified = ""

unfoldable pub entry_from_proto : LogEntry → Entry
unfolding op_type_from_proto
entry_from_proto e = record {
  term = e.term;
  version = e.version;
  op = op_type_from_proto e.op.type;
  key = e.op.key;
  value = e.op.value;
}

pub data RecoveryErr : Type 0 where
  recover_request recovery_gap unknown_response_type : RecoveryErr
  apply_entry apply_snapshot : StateMachine.Err → RecoveryErr

pub data RecoveryResult : Type 0 where
  incremental snapshot : RecoveryResult
  failed : RecoveryErr → RecoveryResult

-- The first loop over the entries: is one missing?
unfoldable pub has_gap : ℕ → ℕ → List LogEntry → Bool
has_gap version expected [] = false
has_gap version expected (e ∷ es) =
    let rest = has_gap version (u64 (expected + 1)) es in
    let skip = has_gap version expected es in
    if leb e.version version then skip else if not (e.version == expected) then true else rest

-- The second loop. The disk takes an entry as `outcome` says for its version.
unfoldable pub apply_entries :
    (ℕ → Wal.AppendOutcome) → StateMachine → List LogEntry → StateMachine × Option StateMachine.Err
unfolding entry_from_proto
apply_entries outcome sm [] = (sm, none)
apply_entries outcome sm (e ∷ es) =
    let (next, failure) =
      StateMachine.apply (outcome e.version) sm (entry_from_proto e) apply_with_wal in
    let skip = apply_entries outcome sm es in
    let rest = apply_entries outcome next es in
    if leb e.version sm.version
    then skip
    else elim failure [ none ↦ rest | some x ↦ (next, some x) ]

-- The shard that is asked for, and the version after which entries are needed.
unfoldable pub recover_from : ReplicaState → String × ℕ
recover_from r =
    if str_eq r.bootstrap_shard_id "" then (r.shard_id, r.version) else (r.bootstrap_shard_id, 0)

unfoldable pub recovered : ReplicaState → StateMachine → ReplicaState
recovered r sm = record r {
  sm = sm;
  is_ready = true;
  recovery_state = healthy;
  recovery_source = "";
  bootstrap_shard_id = "";
  bootstrap_leader_addr = "";
}

unfoldable pub recover_entries :
    (ℕ → Wal.AppendOutcome) → ReplicaState → List LogEntry → ReplicaState × RecoveryResult
unfolding has_gap recovered
recover_entries outcome r es =
    let (sm, failure) = apply_entries outcome r.sm es in
    if has_gap r.version (u64 (r.version + 1)) es then (r, failed recovery_gap) else elim failure [
      | none ↦ (recovered r sm, incremental)
      | some x ↦ (record r { sm = sm }, failed (apply_entry x))
    ]

unfoldable pub after_snapshot :
    ReplicaState → StateMachine × Option StateMachine.Err → ReplicaState × RecoveryResult
unfolding recovered
after_snapshot r (sm, none) = (recovered r sm, snapshot)
after_snapshot r (sm, some x) = (record r { sm = sm }, failed (apply_snapshot x))

unfoldable pub recover_snapshot :
    Io → ReplicaState → RecoverResponse → ReplicaState × RecoveryResult
unfolding after_snapshot kv_from_proto
recover_snapshot io r resp = after_snapshot r (
    StateMachine.apply_snapshot io r.sm
      (record { term = resp.term; version = resp.version; kv = kv_from_proto resp.kv })
      snapshot_persist)

unfoldable pub recover_by :
    RecoverType
    → (ℕ → Wal.AppendOutcome)
    → Io
    → ReplicaState
    → RecoverResponse
    → ReplicaState × RecoveryResult
unfolding recover_entries recover_snapshot
recover_by type_entries outcome io r resp = recover_entries outcome r resp.entries
recover_by type_snapshot outcome io r resp = recover_snapshot io r resp
recover_by type_unspecified outcome io r resp = (r, failed unknown_response_type)

-- `doIncrementalRecovery` behind the call.
unfoldable pub do_incremental_recovery :
    (ℕ → Wal.AppendOutcome)
    → Io
    → ReplicaState
    → Reply RecoverResponse
    → ReplicaState × RecoveryResult
unfolding recover_by
do_incremental_recovery outcome io r (fail code) = (r, failed recover_request)
do_incremental_recovery outcome io r (reply resp) = recover_by resp.type outcome io r resp
