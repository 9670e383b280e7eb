-- ===== src/Coordinator/Server.antt =====
-- coordinator/server.go and coordinator/grpc.go: the calls that the coordinator answers, and what
-- its health monitor does at each tick.
-- A call takes the decoded request. Each call and each tick is one step; the metrics are left out.
pub mod Reach
pub mod Added
pub mod Invariant
use doki.Prelude.{
  ℕ, String, Bool, true, false, List, [], ◌∷◌, Option, none, some, if◌then◌else◌, str_eq, map, ◌||◌,
  ◌==◌, not,
}
use doki.Storage.{Pairs, with_pair}
use doki.ShardMap
use doki.ShardMap.{ShardInfo, ShardMap}
use doki.Coordinator.Membership
use doki.Coordinator.Membership.{NodeStatus, ShardStatus, Membership, new_membership}
use doki.Coordinator.Leader
use doki.Coordinator.Leader.{LeaderManager, new_leader_manager}
use doki.Coordinator.Migration.{
  MigrationManager, new_migration_manager, start_migration, check_migrations,
}
use doki.Config.{ClusterConfig, ℤ, pos, negsuc, is_empty}

-- The managers hold the shard map and the registry of nodes.
pub record Server : Type 0 where
  pub cfg : ClusterConfig
  pub migration : MigrationManager
  pub ready : Bool

-- No node is alive under a timeout that is not positive.
unfoldable pub timeout_of : ℤ → ℕ
timeout_of (pos n) = n
timeout_of (negsuc n) = 0

unfoldable pub new_server : ClusterConfig → Server
unfolding new_membership ShardMap.new new_leader_manager new_migration_manager timeout_of
new_server cfg =
    let membership = new_membership cfg.nodes (timeout_of cfg.coordinator.failure_timeout) in
    record {
      cfg = cfg;
      migration = new_migration_manager (new_leader_manager ShardMap.new membership);
      ready = false;
    }

unfoldable pub with_leaders : Server → LeaderManager → Server
with_leaders s lm = record s { migration = record s.migration { leader = lm } }

unfoldable pub with_membership : Server → Membership → Server
unfolding with_leaders
with_membership s m = with_leaders s (record s.migration.leader { membership = m })

-- The shards before one that fails stay.
unfoldable pub init : Server → Server × Option ShardMap.Err
unfolding with_leaders Leader.init_from_config
init s =
    let (lm, failure) = Leader.init_from_config s.migration.leader s.cfg.shards in
    elim failure [
      | some e ↦ (with_leaders s lm, some e)
      | none ↦ (record (with_leaders s lm) { ready = true }, none)
    ]

pub data Status : Type 0 where
  ok bad_request not_found conflict internal service_unavailable : Status

-- The version of the shard map, or the error of an unknown node.
unfoldable pub heartbeat : ℕ → Server → String → List ShardStatus → Server × Option ℕ
unfolding with_membership
heartbeat now s node_id shards =
    let (m, known) = Membership.record_heartbeat now s.migration.leader.membership node_id shards in
    if known
    then (with_membership s m, some s.migration.leader.shards.version)
    else (with_membership s m, none)

-- What the protocol carries of a shard.
pub record ProtoShardInfo : Type 0 where
  pub shard_id : String
  pub replicas : List String
  pub leader : String

unfoldable pub to_proto : ShardInfo → ProtoShardInfo
to_proto s = record { shard_id = s.id; replicas = s.replicas; leader = s.leader }

unfoldable pub shard_info_to_proto : List ShardInfo → List ProtoShardInfo
unfolding to_proto
shard_info_to_proto shards = map to_proto shards

unfoldable pub addresses : Pairs String → List NodeStatus → Pairs String
addresses found [] = found
addresses found (ns ∷ rest) = addresses (with_pair found ns.id ns.address) rest

pub record GetShardMapResponse : Type 0 where
  pub version : ℕ
  pub shards : List ProtoShardInfo
  pub node_addresses : Pairs String

unfoldable pub get_shard_map : Server → GetShardMapResponse
unfolding shard_info_to_proto addresses
get_shard_map s =
    let lm = s.migration.leader in
    let (version, shards) = ShardMap.snapshot lm.shards in
    record {
      version = version;
      shards = shard_info_to_proto shards;
      node_addresses = addresses [] (Membership.all_nodes lm.membership);
    }

pub data WhereIsLeader : Type 0 where
  leader_at : String → String → ℕ → WhereIsLeader  -- the node, its address and the term
  no_answer : Status → WhereIsLeader

unfoldable pub located : LeaderManager → String → ShardMap.LeaderFor → WhereIsLeader
located lm shard_id (ShardMap.leader_err e) = no_answer not_found
located lm shard_id (ShardMap.leader_is leader) = elim (Membership.get lm.membership leader) [
  | none ↦ no_answer internal
  | some ns ↦ leader_at leader ns.address (Leader.term_for_shard lm shard_id)
]

unfoldable pub where_is_leader : Server → String → WhereIsLeader
unfolding located
where_is_leader s shard_id =
    let lm = s.migration.leader in located lm shard_id (ShardMap.leader_for lm.shards shard_id)

pub record NotifyLeaderResponse : Type 0 where
  pub accepted : Bool
  pub current_term : ℕ

unfoldable pub notify_leader : Server → String → String → ℕ → Server × NotifyLeaderResponse
unfolding with_leaders Leader.notify_leader
notify_leader s shard_id leader_id term =
    let (lm, accepted) = Leader.notify_leader s.migration.leader shard_id leader_id term in
    (
      with_leaders s lm,
      record { accepted = accepted; current_term = Leader.term_for_shard lm shard_id },
    )

-- The handler for `POST /notify_leader`, which no route reaches any more.
unfoldable pub handle_notify_leader : Server → String → String → ℕ → Server × Status
unfolding notify_leader
handle_notify_leader s shard_id leader_id term =
    let (next, response) = notify_leader s shard_id leader_id term in
    if str_eq shard_id "" || (str_eq leader_id "" || term == 0)
    then (s, bad_request)
    else if not response.accepted
    then (next, conflict)
    else (next, ok)

unfoldable pub heard : Server × Option ℕ → Server × Status
heard (s, none) = (s, bad_request)
heard (s, some version) = (s, ok)

-- The handler for `POST /heartbeat`, which no route reaches any more.
unfoldable pub handle_heartbeat : ℕ → Server → String → List ShardStatus → Server × Status
unfolding heard heartbeat
handle_heartbeat now s node_id shards = heard (heartbeat now s node_id shards)

unfoldable pub handle_ready : Server → Status
handle_ready s = if s.ready then ok else service_unavailable

unfoldable pub handle_admin_add_node : Server → String → String → Server × Status
unfolding with_membership Membership.add_node
handle_admin_add_node s node_id address =
    if str_eq node_id "" || str_eq address "" then (s, bad_request) else (
      with_membership s (
          Membership.add_node s.migration.leader.membership
            (record { id = node_id; address = address })),
      ok,
    )

unfoldable pub status_after : Option ShardMap.Err → Status → Status
status_after none failure = ok
status_after (some e) failure = failure

unfoldable pub handle_admin_migrate_shard : Server → String → List String → Server × Status
unfolding status_after start_migration is_empty
handle_admin_migrate_shard s shard_id new_replicas =
    let (mm, failure) = start_migration s.migration shard_id new_replicas in
    if str_eq shard_id "" || is_empty new_replicas
    then (s, bad_request)
    else (record s { migration = mm }, status_after failure bad_request)

-- The shard that a split creates: it has no leader yet.
unfoldable pub split_info : String → String → List String → ShardInfo
split_info source_shard_id new_shard_id new_replicas = record {
  id = new_shard_id;
  replicas = new_replicas;
  leader = "";
  bootstrap_source_shard_id = source_shard_id;
  incoming_replicas = [];
}

-- The new shard takes its first term, once `AddShard` has answered.
unfoldable pub with_split : Server → String → ShardMap × Option ShardMap.Err → Server × Status
unfolding with_leaders Leader.init_term
with_split s new_shard_id (m, some e) = (s, conflict)
with_split s new_shard_id (m, none) =
    (with_leaders s (Leader.init_term (record s.migration.leader { shards = m }) new_shard_id), ok)

unfoldable pub split_shard : Server → String → String → List String → Server × Status
unfolding split_info with_split
split_shard s source_shard_id new_shard_id new_replicas =
    elim (ShardMap.get s.migration.leader.shards source_shard_id) [
      | none ↦ (s, bad_request)
      | some source ↦ with_split s new_shard_id (
          ShardMap.add_shard s.migration.leader.shards
            (split_info source_shard_id new_shard_id new_replicas))
    ]

unfoldable pub handle_admin_split_shard : Server → String → String → List String → Server × Status
unfolding split_shard is_empty
handle_admin_split_shard s source_shard_id new_shard_id new_replicas =
    let split = split_shard s source_shard_id new_shard_id new_replicas in
    if str_eq source_shard_id "" || (str_eq new_shard_id "" || is_empty new_replicas)
    then (s, bad_request)
    else split

-- The leaders are checked where the status of a node has changed.
unfoldable pub refresh : ℕ → LeaderManager → LeaderManager
unfolding is_empty Leader.check_and_reassign
refresh now lm =
    let (m, changed) = Membership.refresh_liveness now lm.membership in
    let next = record lm { membership = m } in
    if is_empty changed then next else (Leader.check_and_reassign next).0

-- One tick of `runHealthMonitor`.
unfoldable pub health_tick : ℕ → Server → Server
unfolding refresh check_migrations
health_tick now s = record s {
  migration = check_migrations (record s.migration { leader = refresh now s.migration.leader });
}
