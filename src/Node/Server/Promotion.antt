-- ===== src/Node/Server/Promotion.antt =====
-- What `refetchShardMap` of node/server.go makes of a replica that it promotes.
use doki.Prelude.{ℕ, String, true, false, [], some, ◌≡◌, refl, ◌∙◌, str_eq_refl}
use doki.Storage.{lookup}
use doki.ShardMap.{ShardInfo}
use doki.Node.Replica.{ReplicaState, leader, healthy}
use doki.Node.Server.{Server, ShardMapResponse, Env, peers_of}
use doki.Node.Server.Refetch.{
  should_host, update_replica, refetch_shard_map, with_role, promoted, is_leader, next_contacts,
}
use doki.Node.Server.Beside.{refetch_updates}

with_role_promotes :
    (node_id : String) (shard : ShardInfo) (r : ReplicaState)
    → shard.leader ≡ node_id
    → is_leader r.role ≡ false
    → with_role node_id shard r ≡ promoted r
unfolding with_role
with_role_promotes node_id shard r leads role = rw leads (rw (str_eq_refl node_id) (rw role refl))

promoted_filled :
    (r : ReplicaState)
    → r.bootstrap_shard_id ≡ ""
    → promoted r ≡ record r { role = leader; is_ready = true; recovery_state = healthy }
unfolding promoted
promoted_filled r filled = rw filled refl

promoted_lem :
    (now : ℕ) (node_id : String) (version : ℕ) (shard : ShardInfo) (r : ReplicaState)
    → shard.leader ≡ node_id
    → is_leader r.role ≡ false
    → r.bootstrap_shard_id ≡ ""
    → ((update_replica now node_id version shard r).role ≡ leader)
      × ((update_replica now node_id version shard r).is_ready ≡ true)
      × ((update_replica now node_id version shard r).recovery_state ≡ healthy)
      × ((update_replica now node_id version shard r).sm ≡ r.sm)
unfolding update_replica
promoted_lem now node_id version shard r leads role filled =
    let peers = peers_of node_id shard.replicas in
    let told : ReplicaState = record r {
      leader_id = shard.leader;
      peers = peers;
      peer_last_contact = next_contacts now r.peer_last_contact [] peers;
    } in
    let e = with_role_promotes node_id shard told leads role ∙ promoted_filled told filled in
    rw e (refl, refl, refl, refl)

-- A replica that did not lead and that a fetched shard map makes the leader is ready at once, with
-- the pairs, the version and the term it had before, however far behind it was, if it was not to be
-- filled from another shard.
pub refetch_promotes :
    (env : Env) (s : Server) (resp : ShardMapResponse) (id : String) (shard : ShardInfo)
    (r : ReplicaState)
    → lookup s.replicas id ≡ some r
    → lookup (should_host s.cfg.node.id [] resp.shards) id ≡ some shard
    → shard.leader ≡ s.cfg.node.id
    → is_leader r.role ≡ false
    → r.bootstrap_shard_id ≡ ""
    → (t : ReplicaState) × (lookup (refetch_shard_map env s resp).replicas id ≡ some t)
      × (t.role ≡ leader)
      × (t.is_ready ≡ true)
      × (t.recovery_state ≡ healthy)
      × (t.sm ≡ r.sm)
refetch_promotes env s resp id shard r there h leads role filled =
    let t = update_replica env.now s.cfg.node.id resp.version shard r in
    let (a, b, c, d) = promoted_lem env.now s.cfg.node.id resp.version shard r leads role filled in
    (t, refetch_updates env s resp id shard r there h, a, b, c, d)
