-- ===== src/Node/Server.antt =====
-- node/server.go: the shards that a node hosts, and node/grpc_client.go: the shard map it is sent.
-- The object that `diskStates` holds for a shard is the disk state of the replica's state machine
-- here. `running` has `true` for the
-- shards whose goroutines run. A call holds the lock and is one step. What
-- the disk, the clock and the random numbers give is an argument; a failed call of the coordinator
-- changes nothing.
pub mod Wanted
pub mod Beside
pub mod Hosting
pub mod Restart
pub mod Refetch
pub mod Promotion
pub mod Protocol
pub mod Splits
use doki.Prelude.{
  ℕ, ◌+◌, ◌-◌, String, Bool, true, false, List, [], ◌∷◌, Option, none, some, leb, if◌then◌else◌,
  str_eq, not, map, ◌&&◌,
}
use doki.Storage.{Pairs, lookup, with_pair, without}
use doki.Wal
use doki.Wal.{Wal}
use doki.ShardMap.{ShardInfo, has_replica}
use doki.Config.{NodeConfig, ℤ, pos, negsuc, with_node_defaults}
use doki.Coordinator.Server.{ProtoShardInfo, GetShardMapResponse}
use doki.Node.DiskState
use doki.Node.DiskState.{DiskState, Files, Io, LoadResult, LoadOutcome, loaded, load_failed}
use doki.Node.StateMachine
use doki.Node.StateMachine.{snapshot_no_persist}
use doki.Node.Replica.{ReplicaState, Role, leader, follower, unknown, healthy, new_replica_state}

pub record ShardMapResponse : Type 0 where
  pub version : ℕ
  pub shards : List ShardInfo
  pub node_addresses : Pairs String

-- The protocol has no source of a split and no incoming replicas.
unfoldable pub from_proto : ProtoShardInfo → ShardInfo
from_proto s = record {
  id = s.shard_id;
  replicas = s.replicas;
  leader = s.leader;
  bootstrap_source_shard_id = "";
  incoming_replicas = [];
}

unfoldable pub shard_info_from_proto : List ProtoShardInfo → List ShardInfo
unfolding from_proto
shard_info_from_proto shards = map from_proto shards

unfoldable pub shard_map_response_from_proto : GetShardMapResponse → ShardMapResponse
unfolding shard_info_from_proto
shard_map_response_from_proto resp = record {
  version = resp.version;
  shards = shard_info_from_proto resp.shards;
  node_addresses = resp.node_addresses;
}

pub record Server : Type 0 where
  pub cfg : NodeConfig
  pub replicas : Pairs ReplicaState
  pub node_addresses : Pairs String
  pub shard_leaders : Pairs String
  pub shard_map_version : ℕ
  pub serving : Bool
  pub running : Pairs Bool

unfoldable pub new_server : NodeConfig → Server
unfolding with_node_defaults
new_server cfg = record {
  cfg = with_node_defaults cfg;
  replicas = [];
  node_addresses = [];
  shard_leaders = [];
  shard_map_version = 0;
  serving = false;
  running = [];
}

-- A number that is at most 0 counts as 0 where the source tests for it.
unfoldable pub or_zero : ℤ → ℕ
or_zero (pos n) = n
or_zero (negsuc n) = 0

-- `int63n n` is the random number below `n`.
unfoldable pub election_timeout : (ℕ → ℕ) → NodeConfig → ℕ
unfolding or_zero
election_timeout int63n cfg =
    let min = or_zero cfg.election_timeout_min in
    let max = or_zero cfg.election_timeout_max in
    if leb min 0 then 0 else if leb max min then 0 else min + int63n (max - min)

unfoldable pub peers_of : String → List String → List String
peers_of node_id [] = []
peers_of node_id (r ∷ rs) =
    let more = peers_of node_id rs in if str_eq r node_id then more else r ∷ more

unfoldable pub contacts_at : ℕ → Pairs ℕ → List String → Pairs ℕ
contacts_at now contacts [] = contacts
contacts_at now contacts (p ∷ ps) = contacts_at now (with_pair contacts p now) ps

-- `m[k]`, "" for a missing key.
unfoldable pub text_at : Pairs String → String → String
text_at m k = elim (lookup m k) [ none ↦ "" | some v ↦ v ]

-- The address of the leader of the first shard of this ID that has a leader.
unfoldable pub source_addr : Pairs String → String → List ShardInfo → String
unfolding text_at
source_addr addrs source [] = ""
source_addr addrs source (sh ∷ rest) =
    let later = source_addr addrs source rest in
    if str_eq sh.id source && not (str_eq sh.leader "") then text_at addrs sh.leader else later

-- What a restart finds: `opens` is the shard's log and snapshot files, `none` an error; `readable`
-- the outcome of opening the log for reading; `fits` whether the log's reader takes an entry in.
pub record Found : Type 0 where
  pub opens : String → Option (Wal × Files)
  pub readable : String → Bool
  pub fits : Wal.Entry → Bool

pub record Env : Type 0 where
  pub now : ℕ
  pub int63n : ℕ → ℕ
  pub found : Found

-- A replica that leads is ready, unless it has to be filled from another shard.
unfoldable pub as_leader : NodeConfig → ShardInfo → ReplicaState → ReplicaState
as_leader cfg shard r =
    if str_eq shard.leader cfg.node.id
    then (if str_eq shard.bootstrap_source_shard_id ""
        then record r { role = leader; is_ready = true; recovery_state = healthy }
        else record r { role = leader })
    else r

unfoldable pub with_source : ShardMapResponse → ShardInfo → ReplicaState → ReplicaState
unfolding source_addr
with_source resp shard r = if str_eq shard.bootstrap_source_shard_id "" then r else record r {
  bootstrap_shard_id = shard.bootstrap_source_shard_id;
  bootstrap_leader_addr =
      source_addr resp.node_addresses shard.bootstrap_source_shard_id resp.shards;
}

-- The replica before its disk is read.
unfoldable pub fresh_replica : Env → ShardMapResponse → Server → ShardInfo → ReplicaState
unfolding peers_of contacts_at election_timeout new_replica_state as_leader with_source or_zero
fresh_replica env resp s shard =
    let peers = peers_of s.cfg.node.id shard.replicas in
    let r =
      new_replica_state shard.id s.cfg.node.id peers (or_zero s.cfg.replication_log_size)
        (election_timeout env.int63n s.cfg) in
    let contacted = record r { peer_last_contact = contacts_at env.now [] peers } in
    let led = as_leader s.cfg shard contacted in
    with_source resp shard
      (record led { leader_id = shard.leader; shard_map_version = s.shard_map_version })

-- Nothing is written when a snapshot is not persisted.
unfoldable pub no_io : Io
no_io = record { rename_ok = λ i. false; saved = false; truncated = false }

unfoldable pub restored : ReplicaState → LoadResult → ReplicaState
unfolding StateMachine.apply_snapshot no_io
restored r l =
    let snap : StateMachine.StateSnapshot = record {
      term = l.term;
      version = l.version;
      kv = l.kv;
    } in
    let (sm, failure) = StateMachine.apply_snapshot no_io r.sm snap snapshot_no_persist in
    let applied = record r { sm = sm; bootstrap_shard_id = ""; bootstrap_leader_addr = "" } in
    elim failure [
      | none ↦ record applied { is_ready = true; recovery_state = healthy }
      | some e ↦ applied
    ]

unfoldable pub after_load : ReplicaState → LoadOutcome → ReplicaState
unfolding restored
after_load r (load_failed e) = r
after_load r (loaded l) = if l.valid then restored r l else r

unfoldable pub with_disk : Found → ReplicaState → Option DiskState → ReplicaState
unfolding after_load StateMachine.set_disk_state DiskState.load
with_disk found r none = r
with_disk found r (some ds) =
    after_load (record r { sm = StateMachine.set_disk_state r.sm ds })
      (DiskState.load found.fits (found.readable r.shard_id) ds)

unfoldable pub opened : NodeConfig → Option (Wal × Files) → Option DiskState
unfolding DiskState.open_disk_state or_zero
opened cfg none = none
opened cfg (some (wal, files)) =
    DiskState.open_disk_state wal files (or_zero cfg.snapshot_interval)
      (or_zero cfg.snapshot_retention)

-- The disk is read where a data directory is configured.
unfoldable pub from_disk : Found → NodeConfig → String → ReplicaState → ReplicaState
unfolding with_disk opened
from_disk found cfg shard_id r =
    if str_eq cfg.data_dir "" then r else with_disk found r (opened cfg (found.opens shard_id))

unfoldable pub init_shard : Env → ShardMapResponse → Server → ShardInfo → Server
unfolding from_disk fresh_replica
init_shard env resp s shard = elim (lookup s.replicas shard.id) [
  | some r ↦ s
  | none ↦ record s {
    replicas =
        with_pair s.replicas shard.id
          (from_disk env.found s.cfg shard.id (fresh_replica env resp s shard));
  }
]

unfoldable pub init_hosted : Env → ShardMapResponse → Server → List ShardInfo → Server
unfolding init_shard has_replica
init_hosted env resp s [] = s
init_hosted env resp s (shard ∷ rest) =
    init_hosted env resp
      (if has_replica shard s.cfg.node.id then init_shard env resp s shard else s) rest

unfoldable pub init_shards : Env → Server → ShardMapResponse → Server
unfolding init_hosted
init_shards env s resp =
    init_hosted env resp
      (record s { node_addresses = resp.node_addresses; shard_map_version = resp.version })
      resp.shards
