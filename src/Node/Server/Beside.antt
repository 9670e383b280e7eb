-- ===== src/Node/Server/Beside.antt =====
-- What `refetchShardMap` of node/server.go does to one replica, beside what it does to others.
use doki.Prelude.{
  ℕ, String, false, List, [], ◌∷◌, none, some, ◌≡◌, refl, ◌∙◌, arith, Bool-cases, Option-cases, inl,
  inr, ◌⊎◌, str_eq, str_eq_refl, eq_iff,
}
use doki.Storage.{Pairs, lookup, with_pair}
use doki.Storage.Laws.{lookup-with_pair, lookup-without, IsKeyed, with_pair-IsKeyed}
use doki.ShardMap.{ShardInfo, has_replica}
use doki.Node.Replica.{ReplicaState}
use doki.Node.Server.{Server, ShardMapResponse, Env, init_shard, fresh_replica, from_disk}
use doki.Node.Server.Refetch.{
  should_host, host_shard, host_shards, update_replica, start_shard_goroutines, start_one,
  start_new, drop_shard, drop_one, drop_removed, refetch_shard_map, with_shard_leaders,
}
use doki.Node.Server.Wanted.{IsFiledUnder, should_host-IsFiledUnder}

-- The servers have the same configuration and map version, and the same replica of the shard.
abbrev IsBeside : String → Server → Server → Type 0
IsBeside id s t =
    (t.cfg ≡ s.cfg)
    × (t.shard_map_version ≡ s.shard_map_version)
    × (lookup t.replicas id ≡ lookup s.replicas id)

with_replica-IsBeside :
    (s : Server) (k id : String) (r : ReplicaState)
    → str_eq k id ≡ false
    → IsBeside id s (record s { replicas = with_pair s.replicas k r })
with_replica-IsBeside s k id r other =
    (refl, refl, ground (arith, other, lookup-with_pair s.replicas k r id))

init_shard_cases :
    (env : Env) (resp : ShardMapResponse) (s : Server) (shard : ShardInfo)
    → (init_shard env resp s shard ≡ s)
      ⊎ ((r : ReplicaState) × (init_shard env resp s shard
            ≡ record s { replicas = with_pair s.replicas shard.id r }))
unfolding init_shard
init_shard_cases env resp s shard = elim (Option-cases (lookup s.replicas shard.id)) [
  | inl missing ↦
      inr (
        from_disk env.found s.cfg shard.id (fresh_replica env resp s shard),
        ground (missing, arith),
      )
  | inr (r, there) ↦ inl (ground (there, arith))
]

init_shard-IsBeside :
    (env : Env) (resp : ShardMapResponse) (s : Server) (shard : ShardInfo) (id : String)
    → str_eq shard.id id ≡ false
    → IsBeside id s (init_shard env resp s shard)
init_shard-IsBeside env resp s shard id other = elim (init_shard_cases env resp s shard) [
  | inl same ↦ rw same (refl, refl, refl)
  | inr (r, e) ↦ rw e (with_replica-IsBeside s shard.id id r other)
]

pub host_shard_new :
    (env : Env) (resp : ShardMapResponse) (s : Server) (shard : ShardInfo) (k : String)
    → lookup s.replicas k ≡ none
    → host_shard env resp s k shard ≡ init_shard env resp s shard
unfolding host_shard
host_shard_new env resp s shard k missing = ground (missing, arith)

pub host_shard_known :
    (env : Env) (resp : ShardMapResponse) (s : Server) (shard : ShardInfo) (k : String)
    (r : ReplicaState)
    → lookup s.replicas k ≡ some r
    → host_shard env resp s k shard ≡ record s {
      replicas =
          with_pair s.replicas k (update_replica env.now s.cfg.node.id s.shard_map_version shard r);
    }
unfolding host_shard
host_shard_known env resp s shard k r there = ground (there, arith)

host_shard-IsBeside :
    (env : Env) (resp : ShardMapResponse) (s : Server) (shard : ShardInfo) (k id : String)
    → shard.id ≡ k
    → str_eq k id ≡ false
    → IsBeside id s (host_shard env resp s k shard)
host_shard-IsBeside env resp s shard k id filed other = elim (Option-cases (lookup s.replicas k)) [
  | inl missing ↦
      rw (host_shard_new env resp s shard k missing)
        (init_shard-IsBeside env resp s shard id (ground (arith, filed, other)))
  | inr (r, there) ↦ rw (host_shard_known env resp s shard k r there) (
      with_replica-IsBeside s k id
        (update_replica env.now s.cfg.node.id s.shard_map_version shard r) other)
]

host_shard_here :
    (env : Env) (resp : ShardMapResponse) (s : Server) (shard : ShardInfo) (id : String)
    (r : ReplicaState)
    → lookup s.replicas id ≡ some r
    → lookup (host_shard env resp s id shard).replicas id
      ≡ some (update_replica env.now s.cfg.node.id s.shard_map_version shard r)
host_shard_here env resp s shard id r there =
    let t = update_replica env.now s.cfg.node.id s.shard_map_version shard r in
    rw (host_shard_known env resp s shard id r there)
      (lookup-with_pair s.replicas id t id ∙ rw (str_eq_refl id) refl)

host_shards-IsBeside :
    (env : Env) (resp : ShardMapResponse) (s : Server) (ps : Pairs ShardInfo) (id : String)
    → IsFiledUnder ps
    → lookup ps id ≡ none
    → IsBeside id s (host_shards env resp s ps)
unfolding host_shards lookup
host_shards-IsBeside env resp s [] id filed h = (refl, refl, refl)
host_shards-IsBeside env resp s ((k, shard) ∷ rest) id filed h =
    let next = host_shard env resp s k shard in
    let (a, b, c) = host_shard-IsBeside env resp s shard k id filed.0 (ground (h, arith)) in
    let (d, e, f) = host_shards-IsBeside env resp next rest id filed.1 (ground (h, arith)) in
    (d ∙ a, e ∙ b, f ∙ c)

host_shards_here :
    (env : Env) (resp : ShardMapResponse) (s : Server) (ps : Pairs ShardInfo) (id : String)
    (shard : ShardInfo) (r : ReplicaState)
    → IsKeyed ps
    → IsFiledUnder ps
    → lookup ps id ≡ some shard
    → lookup s.replicas id ≡ some r
    → lookup (host_shards env resp s ps).replicas id
      ≡ some (update_replica env.now s.cfg.node.id s.shard_map_version shard r)
unfolding host_shards lookup
host_shards_here env resp s [] id shard r keyed filed h there = absurd (ground (h, arith))
host_shards_here env resp s ((k, sh) ∷ rest) id shard r keyed filed h there =
    elim (Bool-cases (str_eq k id)) [
      | inl same ↦
          let q : k ≡ id = (eq_iff k id).0 same in
          let e : sh ≡ shard = ground (h, same, arith) in
          let next = host_shard env resp s id shard in
          let beside = host_shards-IsBeside env resp next rest id filed.1 (rw q at (keyed.0)) in
          rw q (rw e (beside.2 ∙ host_shard_here env resp s shard id r there))
      | inr apart ↦
          let next = host_shard env resp s k sh in
          let (a, b, c) = host_shard-IsBeside env resp s sh k id filed.0 apart in
          host_shards_here env resp next rest id shard r keyed.1 filed.1 (ground (h, apart, arith))
            (c ∙ there)
          ∙ rw a (rw b refl)
    ]

start_one_cases :
    (now : ℕ) (before : Pairs ReplicaState) (s : Server) (k : String)
    → (start_one now before s k ≡ s)
      ⊎ ((lookup before k ≡ none)
          × (r : ReplicaState) × ((start_one now before s k).replicas ≡ with_pair s.replicas k r))
unfolding start_one start_shard_goroutines
start_one_cases now before s k = elim (Option-cases (lookup before k)) [
  | inl fresh ↦ elim (Option-cases (lookup s.replicas k)) [
    | inl missing ↦ inl (ground (fresh, missing, arith))
    | inr (t, there) ↦ elim (Bool-cases s.serving) [
      | inl on ↦
          inr (fresh, record t { last_leader_contact = now }, ground (fresh, there, on, arith))
      | inr off ↦ inl (ground (fresh, there, off, arith))
    ]
  ]
  | inr (t, there) ↦ inl (ground (there, arith))
]

start_one_known :
    (now : ℕ) (before : Pairs ReplicaState) (s : Server) (k id : String) (r : ReplicaState)
    → lookup before id ≡ some r
    → lookup (start_one now before s k).replicas id ≡ lookup s.replicas id
start_one_known now before s k id r known = elim (start_one_cases now before s k) [
  | inl same ↦ rw same refl
  | inr (fresh, t, e) ↦
      rw e (ground (arith, known, fresh, eq_iff k id, lookup-with_pair s.replicas k t id))
]

start_new_known :
    (now : ℕ) (before : Pairs ReplicaState) (s : Server) (ps : Pairs ShardInfo) (id : String)
    (r : ReplicaState)
    → lookup before id ≡ some r
    → lookup (start_new now before s ps).replicas id ≡ lookup s.replicas id
unfolding start_new
start_new_known now before s [] id r known = refl
start_new_known now before s ((k, shard) ∷ rest) id r known =
    start_new_known now before (start_one now before s k) rest id r known
    ∙ start_one_known now before s k id r known

drop_one_wanted :
    (wanted : Pairs ShardInfo) (s : Server) (k id : String) (shard : ShardInfo)
    → lookup wanted id ≡ some shard
    → lookup (drop_one wanted s k).replicas id ≡ lookup s.replicas id
unfolding drop_one drop_shard
drop_one_wanted wanted s k id shard h =
    ground (arith, h, eq_iff k id, lookup-without s.replicas k id)

drop_removed_wanted :
    (wanted : Pairs ShardInfo) (s : Server) (before : Pairs ReplicaState) (id : String)
    (shard : ShardInfo)
    → lookup wanted id ≡ some shard
    → lookup (drop_removed wanted s before).replicas id ≡ lookup s.replicas id
unfolding drop_removed
drop_removed_wanted wanted s [] id shard h = refl
drop_removed_wanted wanted s ((k, r) ∷ rest) id shard h =
    drop_removed_wanted wanted (drop_one wanted s k) rest id shard h
    ∙ drop_one_wanted wanted s k id shard h

should_host-IsKeyed :
    (node_id : String) (found : Pairs ShardInfo) (shards : List ShardInfo)
    → IsKeyed found
    → IsKeyed (should_host node_id found shards)
unfolding should_host
should_host-IsKeyed node_id found [] h = h
should_host-IsKeyed node_id found (shard ∷ rest) h = elim (Bool-cases (has_replica shard node_id)) [
  | inl mine ↦ rw mine (
      should_host-IsKeyed node_id (with_pair found shard.id shard) rest
        (with_pair-IsKeyed found shard.id shard h))
  | inr other ↦ rw other (should_host-IsKeyed node_id found rest h)
]

-- The replica of a shard that the node keeps is updated once.
pub refetch_updates :
    (env : Env) (s : Server) (resp : ShardMapResponse) (id : String) (shard : ShardInfo)
    (r : ReplicaState)
    → lookup s.replicas id ≡ some r
    → lookup (should_host s.cfg.node.id [] resp.shards) id ≡ some shard
    → lookup (refetch_shard_map env s resp).replicas id
      ≡ some (update_replica env.now s.cfg.node.id resp.version shard r)
unfolding refetch_shard_map
refetch_updates env s resp id shard r there h =
    let wanted = should_host s.cfg.node.id [] resp.shards in
    let told : Server = record s {
      node_addresses = resp.node_addresses;
      shard_map_version = resp.version;
      shard_leaders = with_shard_leaders s.shard_leaders resp.shards;
    } in
    let hosted = host_shards env resp told wanted in
    let started = start_new env.now s.replicas hosted wanted in
    drop_removed_wanted wanted started s.replicas id shard h
    ∙ start_new_known env.now s.replicas hosted wanted id r there
    ∙ host_shards_here env resp told wanted id shard r
        (should_host-IsKeyed s.cfg.node.id [] resp.shards tt)
        (should_host-IsFiledUnder s.cfg.node.id [] resp.shards tt) h there
