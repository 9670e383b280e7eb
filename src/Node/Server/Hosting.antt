-- ===== src/Node/Server/Hosting.antt =====
-- Which shards a node of node/server.go hosts after it has fetched the shard map.
use doki.Prelude.{
  ℕ, String, false, [], ◌∷◌, ◌≡◌, refl, ◌∙◌, ap, arith, Option-cases, inl, inr, if◌then◌else◌,
  str_eq, eq_iff, ◌||◌, ◌&&◌, not,
}
use doki.Storage.{Pairs, lookup, with_pair}
use doki.Storage.Laws.{lookup-with_pair, lookup-without}
use doki.ShardMap.{ShardInfo}
use doki.Node.Replica.{ReplicaState}
use doki.Node.Server.{Server, ShardMapResponse, Env, init_shard, fresh_replica, from_disk}
use doki.Node.Server.Refetch.{
  should_host, host_shard, host_shards, update_replica, start_shard_goroutines, start_one, drop_one,
  start_new, drop_shard, drop_removed, refetch_shard_map, with_shard_leaders,
}
use doki.Node.Server.Wanted.{
  is_some, hosts, is_assigned, IsFiledUnder, wanted_none, should_host-IsFiledUnder,
}

hosts_with_pair :
    (m : Pairs ReplicaState) (k id : String) (r : ReplicaState)
    → is_some (lookup (with_pair m k r) id) ≡ (str_eq k id || is_some (lookup m id))
unfolding is_some
hosts_with_pair m k id r = ground (arith, lookup-with_pair m k r id)

init_shard-hosts :
    (env : Env) (resp : ShardMapResponse) (s : Server) (shard : ShardInfo) (id : String)
    → hosts (init_shard env resp s shard) id ≡ (str_eq shard.id id || hosts s id)
unfolding init_shard hosts is_some
init_shard-hosts env resp s shard id = ground (
  arith,
  hosts_with_pair s.replicas shard.id id
      (from_disk env.found s.cfg shard.id (fresh_replica env resp s shard)),
  eq_iff shard.id id,
)

host_shard-hosts :
    (env : Env) (resp : ShardMapResponse) (s : Server) (shard : ShardInfo) (id : String)
    → hosts (host_shard env resp s shard.id shard) id ≡ (str_eq shard.id id || hosts s id)
unfolding host_shard hosts is_some
host_shard-hosts env resp s shard id = elim (Option-cases (lookup s.replicas shard.id)) [
  | inl missing ↦ ground (arith, missing, init_shard-hosts env resp s shard id)
  | inr (r, there) ↦ ground (
    arith,
    there,
    hosts_with_pair s.replicas shard.id id
        (update_replica env.now s.cfg.node.id s.shard_map_version shard r),
  )
]

host_shards-hosts :
    (env : Env) (resp : ShardMapResponse) (s : Server) (ps : Pairs ShardInfo) (id : String)
    → IsFiledUnder ps
    → hosts (host_shards env resp s ps) id ≡ (is_some (lookup ps id) || hosts s id)
unfolding host_shards is_some lookup
host_shards-hosts env resp s [] id filed = ground arith
host_shards-hosts env resp s ((k, shard) ∷ rest) id filed =
    let step : hosts (host_shard env resp s k shard) id ≡ (str_eq k id || hosts s id) =
      rw⁻¹ (filed.0) (host_shard-hosts env resp s shard id) in
    ground (arith, step, host_shards-hosts env resp (host_shard env resp s k shard) rest id filed.1)

start-hosts :
    (now : ℕ) (s : Server) (k id : String) → hosts (start_shard_goroutines now s k) id ≡ hosts s id
unfolding start_shard_goroutines hosts is_some
start-hosts now s k id = elim (Option-cases (lookup s.replicas k)) [
  | inl missing ↦ ground (arith, missing)
  | inr (r, there) ↦ ground (
    arith,
    there,
    hosts_with_pair s.replicas k id (record r { last_leader_contact = now }),
    eq_iff k id,
  )
]

start_one-hosts :
    (now : ℕ) (before : Pairs ReplicaState) (s : Server) (k id : String)
    → hosts (start_one now before s k) id ≡ hosts s id
unfolding start_one
start_one-hosts now before s k id = ground (arith, start-hosts now s k id)

start_new-hosts :
    (now : ℕ) (before : Pairs ReplicaState) (s : Server) (ps : Pairs ShardInfo) (id : String)
    → hosts (start_new now before s ps) id ≡ hosts s id
unfolding start_new
start_new-hosts now before s [] id = refl
start_new-hosts now before s ((k, shard) ∷ rest) id =
    start_new-hosts now before (start_one now before s k) rest id
    ∙ start_one-hosts now before s k id

drop-hosts :
    (s : Server) (k id : String)
    → hosts (drop_shard s k) id ≡ (if str_eq k id then false else hosts s id)
unfolding drop_shard hosts is_some
drop-hosts s k id = ground (arith, lookup-without s.replicas k id)

drop_one-hosts :
    (wanted : Pairs ShardInfo) (s : Server) (k id : String)
    → hosts (drop_one wanted s k) id
      ≡ (if str_eq k id && not (is_some (lookup wanted id)) then false else hosts s id)
unfolding drop_one is_some
drop_one-hosts wanted s k id = ground (arith, drop-hosts s k id, eq_iff k id)

drop_removed-hosts :
    (wanted : Pairs ShardInfo) (s : Server) (before : Pairs ReplicaState) (id : String)
    → hosts (drop_removed wanted s before) id ≡ (
        if is_some (lookup before id) && not (is_some (lookup wanted id))
        then false
        else hosts s id)
unfolding drop_removed is_some lookup
drop_removed-hosts wanted s [] id = ground arith
drop_removed-hosts wanted s ((k, r) ∷ rest) id =
    ground
      (arith, drop_removed-hosts wanted (drop_one wanted s k) rest id, drop_one-hosts wanted s k id)

told_hosts :
    (s told : Server)
    → told.replicas ≡ s.replicas
    → (id : String) → hosts told id ≡ is_some (lookup s.replicas id)
unfolding hosts
told_hosts s told h id = ap (λ (m : Pairs ReplicaState). is_some (lookup m id)) h

-- After a node has fetched the shard map, it hosts exactly the shards that the map lists it for.
pub refetch_shard_map-hosts :
    (env : Env) (s : Server) (resp : ShardMapResponse) (id : String)
    → hosts (refetch_shard_map env s resp) id ≡ is_assigned s.cfg.node.id resp.shards id
unfolding refetch_shard_map
refetch_shard_map-hosts env s resp id =
    let wanted = should_host s.cfg.node.id [] resp.shards in
    let told : Server = record s {
      node_addresses = resp.node_addresses;
      shard_map_version = resp.version;
      shard_leaders = with_shard_leaders s.shard_leaders resp.shards;
    } in
    let hosted = host_shards env resp told wanted in
    let started = start_new env.now s.replicas hosted wanted in
    let listed : is_some (lookup wanted id) ≡ is_assigned s.cfg.node.id resp.shards id =
      wanted_none s.cfg.node.id resp.shards id in
    let same : hosts told id ≡ is_some (lookup s.replicas id) = told_hosts s told refl id in
    ground (
      arith,
      listed,
      same,
      drop_removed-hosts wanted started s.replicas id,
      start_new-hosts env.now s.replicas hosted wanted id,
      host_shards-hosts env resp told wanted id
          (should_host-IsFiledUnder s.cfg.node.id [] resp.shards tt),
    )
