-- ===== src/Node/Server/Splits.antt =====
-- A running node of node/server.go does not learn that it has to fill a replica from another shard.
use doki.Prelude.{
  ℕ, String, List, [], ◌∷◌, ◌≡◌, arith, Bool-cases, Option-cases, inl, inr, str_eq, All,
}
use doki.Storage.{Pairs, lookup, with_pair, without}
use doki.Storage.Laws.{lookup-with_pair, lookup-without}
use doki.ShardMap
use doki.ShardMap.{ShardInfo, has_replica}
use doki.Coordinator
use doki.Coordinator.Server.{shard_info_to_proto, to_proto, get_shard_map}
use doki.Node.Replica.{ReplicaState}
use doki.Node.Server.{Server, ShardMapResponse, Env, shard_map_response_from_proto}
use doki.Node.Server.Refetch.{
  should_host, host_shard, host_shards, update_replica, with_role, promoted, start_shard_goroutines,
  start_one, start_new, drop_shard, drop_one, drop_removed, refetch_shard_map, with_shard_leaders,
}
use doki.Node.Server.Beside.{host_shard_new, host_shard_known}
use doki.Node.Server.Protocol.{
  IsUnplanned, IsUnfilled, received-IsUnplanned, with_replica-IsUnfilled, init_shard-IsUnfilled,
}

update_unfilled :
    (now : ℕ) (node_id : String) (version : ℕ) (shard : ShardInfo) (r : ReplicaState)
    → r.bootstrap_shard_id ≡ ""
    → (update_replica now node_id version shard r).bootstrap_shard_id ≡ ""
unfolding update_replica with_role promoted
update_unfilled now node_id version shard r h = ground (arith, h)

abbrev IsUnplannedAt : Pairs ShardInfo → Type 0
IsUnplannedAt ps = All (λ (p : String × ShardInfo). IsUnplanned p.1) ps

without_unplanned :
    (ps : Pairs ShardInfo) (k : String) → IsUnplannedAt ps → IsUnplannedAt (without ps k)
unfolding without
without_unplanned [] k h = tt
without_unplanned ((j, shard) ∷ rest) k h = elim (Bool-cases (str_eq j k)) [
  | inl same ↦ rw same (without_unplanned rest k h.1)
  | inr other ↦ rw other (h.0, without_unplanned rest k h.1)
]

with_pair_unplanned :
    (ps : Pairs ShardInfo) (k : String) (shard : ShardInfo)
    → IsUnplanned shard
    → IsUnplannedAt ps
    → IsUnplannedAt (with_pair ps k shard)
unfolding with_pair
with_pair_unplanned ps k shard u h = (u, without_unplanned ps k h)

should_host_unplanned :
    (node_id : String) (found : Pairs ShardInfo) (shards : List ShardInfo)
    → IsUnplannedAt found
    → All IsUnplanned shards
    → IsUnplannedAt (should_host node_id found shards)
unfolding should_host
should_host_unplanned node_id found [] h u = h
should_host_unplanned node_id found (shard ∷ rest) h u =
    elim (Bool-cases (has_replica shard node_id)) [
      | inl mine ↦ rw mine (
          should_host_unplanned node_id (with_pair found shard.id shard) rest
            (with_pair_unplanned found shard.id shard u.0 h) u.1)
      | inr other ↦ rw other (should_host_unplanned node_id found rest h u.1)
    ]

host_shard-IsUnfilled :
    (env : Env) (resp : ShardMapResponse) (s : Server) (k : String) (shard : ShardInfo)
    → IsUnplanned shard
    → IsUnfilled s
    → IsUnfilled (host_shard env resp s k shard)
host_shard-IsUnfilled env resp s k shard u all = elim (Option-cases (lookup s.replicas k)) [
  | inl missing ↦
      rw (host_shard_new env resp s shard k missing) (init_shard-IsUnfilled env resp s shard u all)
  | inr (r, there) ↦
      let t = update_replica env.now s.cfg.node.id s.shard_map_version shard r in
      rw (host_shard_known env resp s shard k r there) (
        with_replica-IsUnfilled s k t
          (update_unfilled env.now s.cfg.node.id s.shard_map_version shard r (all k r there)) all)
]

host_shards-IsUnfilled :
    (env : Env) (resp : ShardMapResponse) (s : Server) (ps : Pairs ShardInfo)
    → IsUnplannedAt ps
    → IsUnfilled s
    → IsUnfilled (host_shards env resp s ps)
unfolding host_shards
host_shards-IsUnfilled env resp s [] u all = all
host_shards-IsUnfilled env resp s ((k, shard) ∷ rest) u all =
    host_shards-IsUnfilled env resp (host_shard env resp s k shard) rest u.1
      (host_shard-IsUnfilled env resp s k shard u.0 all)

start_one-IsUnfilled :
    (now : ℕ) (before : Pairs ReplicaState) (s : Server) (k : String)
    → IsUnfilled s
    → IsUnfilled (start_one now before s k)
unfolding start_one start_shard_goroutines
start_one-IsUnfilled now before s k all j t there = elim (Option-cases (lookup s.replicas k)) [
  | inl missing ↦ all j t (ground (there, missing, arith))
  | inr (r, known) ↦ ground (
    arith,
    there,
    known,
    all k r known,
    all j t,
    lookup-with_pair s.replicas k (record r { last_leader_contact = now }) j,
  )
]

start_new-IsUnfilled :
    (now : ℕ) (before : Pairs ReplicaState) (s : Server) (ps : Pairs ShardInfo)
    → IsUnfilled s
    → IsUnfilled (start_new now before s ps)
unfolding start_new
start_new-IsUnfilled now before s [] all = all
start_new-IsUnfilled now before s ((k, shard) ∷ rest) all =
    start_new-IsUnfilled now before (start_one now before s k) rest
      (start_one-IsUnfilled now before s k all)

drop_one-IsUnfilled :
    (wanted : Pairs ShardInfo) (s : Server) (k : String)
    → IsUnfilled s
    → IsUnfilled (drop_one wanted s k)
unfolding drop_one drop_shard
drop_one-IsUnfilled wanted s k all j t there =
    all j t (ground (arith, there, lookup-without s.replicas k j))

drop_removed-IsUnfilled :
    (wanted : Pairs ShardInfo) (s : Server) (before : Pairs ReplicaState)
    → IsUnfilled s
    → IsUnfilled (drop_removed wanted s before)
unfolding drop_removed
drop_removed-IsUnfilled wanted s [] all = all
drop_removed-IsUnfilled wanted s ((k, r) ∷ rest) all =
    drop_removed-IsUnfilled wanted (drop_one wanted s k) rest (drop_one-IsUnfilled wanted s k all)

-- The map that a coordinator sends by gRPC, as the node reads it.
unfoldable pub received : Coordinator.Server.Server → ShardMapResponse
unfolding shard_map_response_from_proto get_shard_map
received coordinator = shard_map_response_from_proto (get_shard_map coordinator)

received_shards :
    (coordinator : Coordinator.Server.Server) → All IsUnplanned (received coordinator).shards
unfolding received shard_map_response_from_proto get_shard_map ShardMap.snapshot
received_shards coordinator =
    received-IsUnplanned (ShardMap.all_shards coordinator.migration.leader.shards)

refetch-IsUnfilled :
    (env : Env) (s : Server) (resp : ShardMapResponse)
    → All IsUnplanned resp.shards
    → IsUnfilled s
    → IsUnfilled (refetch_shard_map env s resp)
unfolding refetch_shard_map
refetch-IsUnfilled env s resp u all =
    let wanted = should_host s.cfg.node.id [] resp.shards in
    let told : Server = record s {
      node_addresses = resp.node_addresses;
      shard_map_version = resp.version;
      shard_leaders = with_shard_leaders s.shard_leaders resp.shards;
    } in
    let hosted = host_shards env resp told wanted in
    drop_removed-IsUnfilled wanted (start_new env.now s.replicas hosted wanted) s.replicas (
      start_new-IsUnfilled env.now s.replicas hosted wanted (
        host_shards-IsUnfilled env resp told wanted
          (should_host_unplanned s.cfg.node.id [] resp.shards tt u) all))

-- A running node that brings its shards up to date with the map that a coordinator sends it by gRPC
-- has no replica that is to be filled from another shard, whatever splits the coordinator has made, if
-- it had none before.
pub split-IsUnfilled :
    (env : Env) (s : Server) (coordinator : Coordinator.Server.Server)
    → IsUnfilled s
    → IsUnfilled (refetch_shard_map env s (received coordinator))
split-IsUnfilled env s coordinator all =
    refetch-IsUnfilled env s (received coordinator) (received_shards coordinator) all
