-- ===== src/Coordinator/Server/Reach.antt =====
-- Every order of the calls of coordinator/server.go and coordinator/grpc.go and of the ticks of the
-- health monitor.
use doki.Prelude.{ℕ, String, List, All, ◌⊎◌, ◌≡◌, true}
use doki.ShardMap.{is_among}
use doki.Coordinator.Membership.{ShardStatus}
use doki.Coordinator.Leader.{ShardSpec}
use doki.Config.{ClusterConfig}
use doki.Coordinator.Server.{
  Server, new_server, init, heartbeat, notify_leader, handle_admin_add_node,
  handle_admin_migrate_shard, handle_admin_split_shard, health_tick,
}

-- A call or a tick, each at the time it is made, and the server after it.
pub data Step (s : Server) : Server → Type 0 where
  beat :
      (now : ℕ) (node_id : String) (shards : List ShardStatus)
      → Step s (heartbeat now s node_id shards).0
  notify :
      (shard_id leader_id : String) (term : ℕ) → Step s (notify_leader s shard_id leader_id term).0
  add_node : (node_id address : String) → Step s (handle_admin_add_node s node_id address).0
  migrate :
      (shard_id : String) (new_replicas : List String)
      → Step s (handle_admin_migrate_shard s shard_id new_replicas).0
  split :
      (source_shard_id new_shard_id : String) (new_replicas : List String)
      → Step s (handle_admin_split_shard s source_shard_id new_shard_id new_replicas).0
  tick : (now : ℕ) → Step s (health_tick now s)

-- A server that was started with the configuration, after any number of steps.
pub data Reachable (cfg : ClusterConfig) : Server → Type 0 where
  start : Reachable cfg (init (new_server cfg)).0
  step : {s t : Server} → Reachable cfg s → Step s t → Reachable cfg t

-- The initial leaders are replicas of their shards.
abbrev pub IsLedSpec : ShardSpec → Type 0
IsLedSpec spec = (spec.initial_leader ≡ "") ⊎ (is_among spec.initial_leader spec.replicas ≡ true)

abbrev pub IsLedConfig : ClusterConfig → Type 0
IsLedConfig cfg = All IsLedSpec cfg.shards
