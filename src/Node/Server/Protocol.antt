-- ===== src/Node/Server/Protocol.antt =====
-- What the shard map loses between coordinator/grpc.go and node/grpc_client.go.
use doki.Prelude.{
  String, List, [], ◌∷◌, Option, none, some, ◌≡◌, refl, arith, Bool-cases, inl, inr, ◌⊎◌, str_eq,
  str_eq_refl, All,
}
use doki.Storage.{lookup, with_pair}
use doki.Storage.Laws.{lookup-with_pair}
use doki.ShardMap.{ShardInfo}
use doki.Coordinator.Server.{shard_info_to_proto, to_proto}
use doki.Node.DiskState
use doki.Node.DiskState.{DiskState, LoadOutcome, loaded, load_failed}
use doki.Node.StateMachine
use doki.Node.Replica.{ReplicaState, new_replica_state}
use doki.Node.Server.{
  Server, ShardMapResponse, Env, Found, from_proto, shard_info_from_proto, fresh_replica, as_leader,
  with_source, restored, after_load, with_disk, from_disk, init_shard, opened,
}

-- A shard without the source of its split and the incoming side of its migration.
abbrev pub without_plans : ShardInfo → ShardInfo
without_plans s = record s { bootstrap_source_shard_id = ""; incoming_replicas = [] }

abbrev pub IsUnplanned : ShardInfo → Type 0
IsUnplanned s = s.bootstrap_source_shard_id ≡ ""

-- No replica is to be filled from another shard.
abbrev pub IsUnfilled : Server → Type 0
IsUnfilled s =
    (id : String) (r : ReplicaState) → lookup s.replicas id ≡ some r → r.bootstrap_shard_id ≡ ""

pub received-IsUnplanned :
    (shards : List ShardInfo) → All IsUnplanned (shard_info_from_proto (shard_info_to_proto shards))
unfolding shard_info_from_proto shard_info_to_proto to_proto from_proto
received-IsUnplanned [] = tt
received-IsUnplanned (s ∷ ss) = (refl, received-IsUnplanned ss)

fresh_unfilled :
    (env : Env) (resp : ShardMapResponse) (s : Server) (shard : ShardInfo)
    → IsUnplanned shard
    → (fresh_replica env resp s shard).bootstrap_shard_id ≡ ""
unfolding fresh_replica as_leader with_source new_replica_state
fresh_unfilled env resp s shard none_planned = ground (arith, none_planned, str_eq_refl "")

restored_unfilled :
    (r : ReplicaState) (l : DiskState.LoadResult) → (restored r l).bootstrap_shard_id ≡ ""
unfolding restored StateMachine.apply_snapshot
restored_unfilled r l = refl

after_load_unfilled :
    (r : ReplicaState) (o : LoadOutcome)
    → r.bootstrap_shard_id ≡ ""
    → (after_load r o).bootstrap_shard_id ≡ ""
unfolding after_load
after_load_unfilled r (load_failed e) h = h
after_load_unfilled r (loaded l) h = elim (Bool-cases l.valid) [
  | inl there ↦ rw there (restored_unfilled r l)
  | inr fresh ↦ rw fresh h
]

with_disk_unfilled :
    (found : Found) (r : ReplicaState) (o : Option DiskState)
    → r.bootstrap_shard_id ≡ ""
    → (with_disk found r o).bootstrap_shard_id ≡ ""
unfolding with_disk
with_disk_unfilled found r none h = h
with_disk_unfilled found r (some ds) h =
    after_load_unfilled (record r { sm = StateMachine.set_disk_state r.sm ds })
      (DiskState.load found.fits (found.readable r.shard_id) ds) h

from_disk_unfilled :
    (env : Env) (s : Server) (id : String) (r : ReplicaState)
    → r.bootstrap_shard_id ≡ ""
    → (from_disk env.found s.cfg id r).bootstrap_shard_id ≡ ""
unfolding from_disk
from_disk_unfilled env s id r h = elim (Bool-cases (str_eq s.cfg.data_dir "")) [
  | inl diskless ↦ rw diskless h
  | inr stores ↦ rw stores (with_disk_unfilled env.found r (opened s.cfg (env.found.opens id)) h)
]

pub with_replica-IsUnfilled :
    (s : Server) (id : String) (r : ReplicaState)
    → r.bootstrap_shard_id ≡ ""
    → IsUnfilled s
    → IsUnfilled (record s { replicas = with_pair s.replicas id r })
with_replica-IsUnfilled s id r h all j t there =
    ground (arith, lookup-with_pair s.replicas id r j, h, all j t, there)

init_shard_made :
    (env : Env) (resp : ShardMapResponse) (s : Server) (shard : ShardInfo)
    → (init_shard env resp s shard ≡ s)
      ⊎ (init_shard env resp s shard ≡ record s {
        replicas =
            with_pair s.replicas shard.id
              (from_disk env.found s.cfg shard.id (fresh_replica env resp s shard));
      })
unfolding init_shard
init_shard_made env resp s shard = ground arith

pub init_shard-IsUnfilled :
    (env : Env) (resp : ShardMapResponse) (s : Server) (shard : ShardInfo)
    → IsUnplanned shard
    → IsUnfilled s
    → IsUnfilled (init_shard env resp s shard)
init_shard-IsUnfilled env resp s shard unplanned all = elim (init_shard_made env resp s shard) [
  | inl same ↦ rw same all
  | inr e ↦
      let r = fresh_replica env resp s shard in
      rw e (
        with_replica-IsUnfilled s shard.id (from_disk env.found s.cfg shard.id r)
          (from_disk_unfilled env s shard.id r (fresh_unfilled env resp s shard unplanned)) all)
]
