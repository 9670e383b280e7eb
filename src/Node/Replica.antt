-- ===== src/Node/Replica.antt =====
-- node/replica.go, node/recovery_state.go and node/write_guard.go: the state of one shard replica.
-- Times are nanoseconds, 0 the zero time. The counters are unbounded. `term` and `version` are those
-- of the state machine, which the source reaches through pointers.
use Prim.Native.String.{◌++◌ as ◌^^◌}
use doki.Prelude.{
  ℕ, ◌-◌, ◌/◌, String, Bool, true, false, List, [], Option, none, some, ◌==◌, if◌then◌else◌, str_eq,
}
use doki.Storage
use doki.Storage.{Pairs}
use doki.ReplicationLog
use doki.Node.StateMachine.{StateMachine}

pub data Role : Type 0 where
  leader follower unknown : Role

pub data RecoveryState : Type 0 where
  healthy lagging recovering unavailable : RecoveryState

unfoldable pub recovery_source_leader : String → String
recovery_source_leader leader_id = if str_eq leader_id "" then "" else "leader:" ^^ leader_id

unfoldable pub recovery_source_bootstrap : String → String
recovery_source_bootstrap shard_id = if str_eq shard_id "" then "" else "bootstrap:" ^^ shard_id

pub record ReplicaState : Type 0 where
  pub shard_id : String
  pub node_id : String
  pub role : Role
  pub leader_id : String
  pub sm : StateMachine
  pub open sm use {term, version}
  pub is_ready : Bool
  pub recovery_state : RecoveryState
  pub recovery_source : String
  pub peers : List String
  pub shard_map_version : ℕ
  pub last_leader_contact : ℕ
  pub voted_for : String
  pub voted_for_term : ℕ
  pub election_timeout : ℕ
  pub peer_last_contact : Pairs ℕ
  pub bootstrap_shard_id : String
  pub bootstrap_leader_addr : String
  pub election_count : ℕ
  pub recovery_count : ℕ
  pub write_ops_total : ℕ
  pub write_err_total : ℕ

unfoldable pub new_shard_state_machine : ℕ → StateMachine
unfolding Storage.new ReplicationLog.new
new_shard_state_machine log_size = record {
  kv = Storage.new;
  rep_log = ReplicationLog.new log_size;
  term = 0;
  version = 0;
  ds = none;
}

unfoldable pub new_replica_state : String → String → List String → ℕ → ℕ → ReplicaState
unfolding new_shard_state_machine
new_replica_state shard_id node_id peers log_size election_timeout = record {
  shard_id = shard_id;
  node_id = node_id;
  role = follower;
  leader_id = "";
  sm = new_shard_state_machine log_size;
  is_ready = false;
  recovery_state = lagging;
  recovery_source = "";
  peers = peers;
  shard_map_version = 0;
  last_leader_contact = 0;
  voted_for = "";
  voted_for_term = 0;
  election_timeout = election_timeout;
  peer_last_contact = [];
  bootstrap_shard_id = "";
  bootstrap_leader_addr = "";
  election_count = 0;
  recovery_count = 0;
  write_ops_total = 0;
  write_err_total = 0;
}

-- `replica.Term = term`
abbrev pub with_term : ReplicaState → ℕ → ReplicaState
with_term r term = record r { sm = record r.sm { term = term } }

pub record StatusSnapshot : Type 0 where
  pub shard_id : String
  pub role : Role
  pub leader_id : String
  pub term : ℕ
  pub version : ℕ
  pub is_ready : Bool
  pub recovery_state : RecoveryState
  pub recovery_source : String
  pub peers : List String
  pub last_leader_contact_ms : ℕ
  pub election_count : ℕ
  pub recovery_count : ℕ
  pub write_ops_total : ℕ
  pub write_err_total : ℕ

-- `now` is what `time.Since` reads, at or after the last contact.
unfoldable pub status_snapshot : ℕ → ReplicaState → StatusSnapshot
status_snapshot now r = record {
  shard_id = r.shard_id;
  role = r.role;
  leader_id = r.leader_id;
  term = r.term;
  version = r.version;
  is_ready = r.is_ready;
  recovery_state = r.recovery_state;
  recovery_source = r.recovery_source;
  peers = r.peers;
  last_leader_contact_ms =
      if r.last_leader_contact == 0 then 0 else (now - r.last_leader_contact) / 1000000;
  election_count = r.election_count;
  recovery_count = r.recovery_count;
  write_ops_total = r.write_ops_total;
  write_err_total = r.write_err_total;
}

pub data GuardErr : Type 0 where
  not_leader not_ready : GuardErr

guard_role : Role → Bool → Option GuardErr
guard_role leader true = none
guard_role leader false = some not_ready
guard_role _ ready = some not_leader

unfoldable pub ensure_leader_ready : ℕ → ReplicaState → StatusSnapshot × Option GuardErr
unfolding guard_role status_snapshot
ensure_leader_ready now r =
    let snap = status_snapshot now r in (snap, guard_role snap.role snap.is_ready)
