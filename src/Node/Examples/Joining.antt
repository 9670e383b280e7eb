-- ===== src/Node/Examples/Joining.antt =====
-- The theorems about the shards that a node hosts, at a node with one shard.
use doki.Prelude.{String, true, false, [], ◌∷◌, none, some, ◌≡◌, refl, arith, str_ne}
use doki.Storage
use doki.Storage.{lookup}
use doki.Wal
use doki.ShardMap
use doki.ShardMap.{ShardInfo, is_among}
use doki.Config.{ClusterConfig, NodeConfig, pos}
use doki.Coordinator
use doki.Coordinator.Server.{split_info}
use doki.Node.DiskState.{DiskState}
use doki.Node.StateMachine.Durability.{write, here, next}
use doki.Node.Replica.{ReplicaState, leader, follower, healthy}
use doki.Node.Server.{Server, ShardMapResponse, Env, init_shard, or_zero}
use doki.Node.Server.Refetch.{refetch_shard_map, should_host, is_leader}
use doki.Node.Server.Wanted.{hosts, is_assigned}
use doki.Node.Server.Hosting.{refetch_shard_map-hosts}
use doki.Node.Server.Promotion.{refetch_promotes}
use doki.Node.Server.Protocol.{IsUnfilled}
use doki.Node.Server.Splits.{received, split-IsUnfilled}
use doki.Node.Server.Restart.{Finds, Holds, init_shard_restores}
use doki.Node.Examples.{put_a, every, disk_with, logged, machine, replica}
use doki.Node.Examples.Durable.{empty-Mirrors, apply_put}

abbrev cfg : NodeConfig
cfg = record {
  node = record { id = "n1"; address = "a1" };
  coordinator_address = "c1";
  data_dir = "d";
  heartbeat_interval = pos 500000000;
  heartbeat_interval_ms = pos 500;
  quorum_timeout = pos 500000000;
  quorum_timeout_ms = pos 500;
  snapshot_interval = pos 2;
  snapshot_retention = pos 2;
  replication_log_size = pos 10;
  leader_heartbeat_ms = pos 150;
  leader_heartbeat = pos 150000000;
  election_timeout_min_ms = pos 300;
  election_timeout_max_ms = pos 600;
  election_timeout_min = pos 300000000;
  election_timeout_max = pos 600000000;
}

abbrev follows : ReplicaState
follows = replica "n1" follower false (machine [] [] 3 0) ("n2" ∷ []) []

-- A server that hosts "s1", and one that hosts nothing.
abbrev leaf : Server
leaf = record {
  cfg = cfg;
  replicas = ("s1", follows) ∷ [];
  node_addresses = [];
  shard_leaders = [];
  shard_map_version = 1;
  serving = true;
  running = ("s1", true) ∷ [];
}

abbrev bare : Server
bare = record leaf { replicas = []; running = [] }

abbrev shard : String → String → ShardInfo
shard id led = record {
  id = id;
  replicas = "n1" ∷ "n2" ∷ [];
  leader = led;
  bootstrap_source_shard_id = "";
  incoming_replicas = [];
}

abbrev resp : ShardMapResponse
resp = record {
  version = 2;
  shards = shard "s1" "n1" ∷ shard "s2" "n2" ∷ [];
  node_addresses = ("n2", "a2") ∷ [];
}

-- The disk that the accepted write of `with_a` leaves.
abbrev written : DiskState
written = disk_with (Wal.written (logged (put_a 1 1 "x")) ∷ []) 1

abbrev env : Env
env = record {
  now = 100;
  int63n = λ n. 0;
  found = record {
    opens = λ id. some (written.wal, written.files);
    readable = λ id. true;
    fits = every;
  };
}

refetch_shard_map-hosts_example :
    hosts (refetch_shard_map env leaf resp) "s2" ≡ is_assigned "n1" resp.shards "s2"
refetch_shard_map-hosts_example = refetch_shard_map-hosts env leaf resp "s2"

there : lookup leaf.replicas "s1" ≡ some follows
unfolding lookup
there = refl

wants : lookup (should_host "n1" [] resp.shards) "s1" ≡ some (shard "s1" "n1")
unfolding lookup should_host Storage.with_pair Storage.without ShardMap.has_replica
wants = refl

unled : is_leader follows.role ≡ false
unfolding is_leader
unled = refl

refetch_promotes_example :
    (t : ReplicaState) × (lookup (refetch_shard_map env leaf resp).replicas "s1" ≡ some t)
    × (t.role ≡ leader)
    × (t.is_ready ≡ true)
    × (t.recovery_state ≡ healthy)
    × (t.sm ≡ follows.sm)
refetch_promotes_example =
    refetch_promotes env leaf resp "s1" (shard "s1" "n1") follows there wants refl unled refl

finds : Finds env cfg "s1" written
unfolding or_zero
finds = record {
  stores = str_ne "d" "" refl;
  interval = omega arith;
  retention = refl;
  opens = refl;
  reads = refl;
}

missing : lookup bare.replicas "s1" ≡ none
unfolding lookup
missing = refl

init_shard_restores_example :
    (r : ReplicaState) × (lookup (init_shard env resp bare (shard "s1" "n2")).replicas "s1"
      ≡ some r)
    × Holds r (("a", "x") ∷ []) 1 1
init_shard_restores_example =
    init_shard_restores env resp bare (shard "s1" "n2") written
      (next here (write Wal.durable (put_a 1 1 "x") refl (omega arith) apply_put)) empty-Mirrors
      refl missing finds

abbrev split : ShardInfo
split = split_info "s1" "s2" ("n1" ∷ [])

abbrev cluster : ClusterConfig
cluster = record {
  coordinator = record {
    address = "c1";
    heartbeat_interval = pos 500000000;
    heartbeat_interval_ms = pos 500;
    failure_timeout = pos 1500000000;
    failure_timeout_ms = pos 1500;
  };
  nodes = record { id = "n1"; address = "a1" } ∷ [];
  shards = record { id = "s1"; replicas = "n1" ∷ []; initial_leader = "n1" } ∷ [];
  replication = record {
    quorum_timeout_ms = pos 1000;
    max_lag_versions = pos 1000;
    max_buffered_versions = pos 100;
  };
}

-- A coordinator that has split "s1".
abbrev splitter : Coordinator.Server.Server
splitter =
    (Coordinator.Server.handle_admin_split_shard
      (Coordinator.Server.init (Coordinator.Server.new_server cluster)).0 "s1" "s2" ("n1" ∷ [])).0

leaf-IsUnfilled : IsUnfilled leaf
unfolding lookup
leaf-IsUnfilled id r h = ground (h, arith)

split-IsUnfilled_example : IsUnfilled (refetch_shard_map env leaf (received splitter))
split-IsUnfilled_example = split-IsUnfilled env leaf splitter leaf-IsUnfilled
