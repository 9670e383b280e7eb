-- ===== src/Node/Server/Refetch.antt =====
-- `refetchShardMap` and what it calls, of node/server.go.
use doki.Prelude.{
  ℕ, String, Bool, true, false, List, [], ◌∷◌, Option, none, some, if◌then◌else◌, str_eq, ltb,
}
use doki.Storage.{Pairs, lookup, with_pair, without}
use doki.ShardMap.{ShardInfo, has_replica}
use doki.Coordinator.Membership.{ShardStatus}
use doki.Node.Replica.{ReplicaState, Role, leader, follower, unknown, healthy}
use doki.Node.Server.{Server, ShardMapResponse, Env, peers_of, init_shard}

unfoldable pub should_host : String → Pairs ShardInfo → List ShardInfo → Pairs ShardInfo
unfolding has_replica
should_host node_id found [] = found
should_host node_id found (shard ∷ rest) =
    should_host node_id
      (if has_replica shard node_id then with_pair found shard.id shard else found) rest

unfoldable pub with_shard_leaders : Pairs String → List ShardInfo → Pairs String
with_shard_leaders leaders [] = leaders
with_shard_leaders leaders (shard ∷ rest) =
    with_shard_leaders (with_pair leaders shard.id shard.leader) rest

-- The last contact with a peer is kept, and is now for a new one.
unfoldable pub kept_or : ℕ → Option ℕ → ℕ
kept_or now none = now
kept_or now (some last) = last

unfoldable pub next_contacts : ℕ → Pairs ℕ → Pairs ℕ → List String → Pairs ℕ
unfolding kept_or
next_contacts now old contacts [] = contacts
next_contacts now old contacts (p ∷ ps) =
    next_contacts now old (with_pair contacts p (kept_or now (lookup old p))) ps

unfoldable pub is_leader : Role → Bool
is_leader leader = true
is_leader follower = false
is_leader unknown = false

unfoldable pub promoted : ReplicaState → ReplicaState
promoted r =
    if str_eq r.bootstrap_shard_id ""
    then record r { role = leader; is_ready = true; recovery_state = healthy }
    else record r { role = leader }

-- The promotion or the demotion that the map asks for.
unfoldable pub with_role : String → ShardInfo → ReplicaState → ReplicaState
unfolding promoted is_leader
with_role node_id shard r =
    if str_eq shard.leader node_id
    then (if is_leader r.role then r else promoted r)
    else (if is_leader r.role then record r { role = follower } else r)

unfoldable pub update_replica : ℕ → String → ℕ → ShardInfo → ReplicaState → ReplicaState
unfolding peers_of next_contacts with_role
update_replica now node_id version shard r =
    let peers = peers_of node_id shard.replicas in
    let next = with_role node_id shard (record r {
      leader_id = shard.leader;
      peers = peers;
      peer_last_contact = next_contacts now r.peer_last_contact [] peers;
    }) in
    record next {
      last_leader_contact =
          if str_eq shard.leader r.leader_id then next.last_leader_contact else now;
      shard_map_version = version;
    }

-- A shard that the node should host.
unfoldable pub host_shard : Env → ShardMapResponse → Server → String → ShardInfo → Server
unfolding update_replica init_shard
host_shard env resp s shard_id shard = elim (lookup s.replicas shard_id) [
  | some r ↦ record s {
    replicas =
        with_pair s.replicas shard_id
          (update_replica env.now s.cfg.node.id s.shard_map_version shard r);
  }
  | none ↦ init_shard env resp s shard
]

unfoldable pub host_shards : Env → ShardMapResponse → Server → Pairs ShardInfo → Server
unfolding host_shard
host_shards env resp s [] = s
host_shards env resp s ((id, shard) ∷ rest) =
    host_shards env resp (host_shard env resp s id shard) rest

unfoldable pub start_shard_goroutines : ℕ → Server → String → Server
start_shard_goroutines now s shard_id = elim (lookup s.replicas shard_id) [
  | none ↦ s
  | some r ↦
      if s.serving
      then record s {
        replicas = with_pair s.replicas shard_id (record r { last_leader_contact = now });
        running = with_pair s.running shard_id true;
      }
      else s
]

unfoldable pub drop_shard : Server → String → Server
drop_shard s shard_id = record s {
  replicas = without s.replicas shard_id;
  shard_leaders = without s.shard_leaders shard_id;
  running = without s.running shard_id;
}

-- `newShardIDs`: those the node should host and does not.
unfoldable pub start_one : ℕ → Pairs ReplicaState → Server → String → Server
unfolding start_shard_goroutines
start_one now before s id = elim (lookup before id) [
  | none ↦ start_shard_goroutines now s id
  | some r ↦ s
]

unfoldable pub start_new : ℕ → Pairs ReplicaState → Server → Pairs ShardInfo → Server
unfolding start_one
start_new now before s [] = s
start_new now before s ((id, shard) ∷ rest) = start_new now before (start_one now before s id) rest

-- `toRemove`: those the node hosts and should not.
unfoldable pub drop_one : Pairs ShardInfo → Server → String → Server
unfolding drop_shard
drop_one wanted s id = elim (lookup wanted id) [ none ↦ drop_shard s id | some shard ↦ s ]

unfoldable pub drop_removed : Pairs ShardInfo → Server → Pairs ReplicaState → Server
unfolding drop_one
drop_removed wanted s [] = s
drop_removed wanted s ((id, r) ∷ rest) = drop_removed wanted (drop_one wanted s id) rest

-- `resp` is what the coordinator has answered.
unfoldable pub refetch_shard_map : Env → Server → ShardMapResponse → Server
unfolding should_host with_shard_leaders host_shards start_new drop_removed
refetch_shard_map env s resp =
    let wanted = should_host s.cfg.node.id [] resp.shards in
    let told = record s {
      node_addresses = resp.node_addresses;
      shard_map_version = resp.version;
      shard_leaders = with_shard_leaders s.shard_leaders resp.shards;
    } in
    let hosted = host_shards env resp told wanted in
    drop_removed wanted (start_new env.now s.replicas hosted wanted) s.replicas

unfoldable pub role_text : Role → String
role_text leader = "LEADER"
role_text follower = "FOLLOWER"
role_text unknown = "UNKNOWN"

unfoldable pub shard_status : ReplicaState → ShardStatus
unfolding role_text
shard_status r = record {
  shard_id = r.shard_id;
  role = role_text r.role;
  version = r.version;
  is_ready = r.is_ready;
  term = r.term;
}

-- What a heartbeat of the node reports.
unfoldable pub heartbeat_shards : Pairs ReplicaState → List ShardStatus
unfolding shard_status
heartbeat_shards [] = []
heartbeat_shards ((id, r) ∷ rest) = shard_status r ∷ heartbeat_shards rest

-- What `sendHeartbeat` does with the version that the coordinator answers with.
unfoldable pub after_heartbeat : Env → Server → ℕ → ShardMapResponse → Server
after_heartbeat env s version resp =
    if ltb s.shard_map_version version then refetch_shard_map env s resp else s

unfoldable pub all_ready : Pairs ReplicaState → Bool
all_ready [] = true
all_ready ((id, r) ∷ rest) = let others = all_ready rest in if r.is_ready then others else false

-- The status code of the answer to `GET /ready`.
unfoldable pub handle_ready : Server → ℕ
unfolding all_ready
handle_ready s = if all_ready s.replicas then 200 else 503
