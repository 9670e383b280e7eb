-- ===== src/Node/Examples.antt =====
-- Small replicas on which the theorems about node/*.go are applied.
pub mod Durable
pub mod Voting
pub mod Writing
pub mod Catching
pub mod Joining
use doki.Prelude.{ℕ, String, List, [], ◌∷◌, Bool, true, false, none, some, u64}
use doki.Storage.{Pairs, Kv}
use doki.ReplicationLog.{Entry}
use doki.Wal
use doki.Snapshot.{absent}
use doki.Node.DiskState.{DiskState, Io}
use doki.Node.StateMachine.{StateMachine, wal_entry_from}
use doki.Node.Replica.{ReplicaState, Role, lagging}

abbrev pub put_a : ℕ → ℕ → String → Entry
put_a term version value = record {
  term = term;
  version = version;
  op = "put";
  key = "a";
  value = value;
}

abbrev pub logged : Entry → Wal.Entry
logged e = record { term = e.term; version = e.version; op = e.op; key = e.key; value = e.value }

abbrev pub every : Wal.Entry → Bool
every e = true

abbrev pub io_works : Io
io_works = record { rename_ok = λ i. true; saved = true; truncated = true }

-- A disk with a log of these lines and no snapshot.
abbrev pub disk_with : List Wal.Line → ℕ → DiskState
disk_with lines writes = record {
  wal = record { lines = lines };
  files = λ i. absent;
  writes_since_snapshot = writes;
  snapshot_interval = 2;
  snapshot_retention = 2;
}

abbrev pub machine : Kv → List Entry → ℕ → ℕ → StateMachine
machine kv entries term version = record {
  kv = record { pairs = kv };
  rep_log = record { entries = entries; max_size = 10 };
  term = term;
  version = version;
  ds = none;
}

abbrev pub on_disk : StateMachine → DiskState → StateMachine
on_disk sm ds = record sm { ds = some ds }

abbrev pub replica : String → Role → Bool → StateMachine → List String → Pairs ℕ → ReplicaState
replica id role ready sm peers contacts = record {
  shard_id = "s1";
  node_id = id;
  role = role;
  leader_id = "";
  sm = sm;
  is_ready = ready;
  recovery_state = lagging;
  recovery_source = "";
  peers = peers;
  shard_map_version = 1;
  last_leader_contact = 0;
  voted_for = "";
  voted_for_term = 0;
  election_timeout = 100;
  peer_last_contact = contacts;
  bootstrap_shard_id = "";
  bootstrap_leader_addr = "";
  election_count = 0;
  recovery_count = 0;
  write_ops_total = 0;
  write_err_total = 0;
}
