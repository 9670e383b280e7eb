-- ===== src/Node/Recovery/Loop.antt =====
-- One tick of `runRecoveryLoop` of node/recovery.go.
-- The tick reads the replica once, and works with what it read while the recovery goes on.
use doki.Prelude.{String, ◌+◌, not, ◌&&◌, if◌then◌else◌, str_eq}
use doki.Node.Replica.{
  ReplicaState, healthy, lagging, recovering, unavailable, recovery_source_leader,
  recovery_source_bootstrap,
}
use doki.Node.Recovery.{RecoveryResult, failed}

pub data Tick : Type 0 where
  idle : ReplicaState → Tick
  attempt : String → ReplicaState → Tick  -- the address of the node that is asked

-- The address that the tick turns to, "" if there is none.
unfoldable pub recovery_addr : String → ReplicaState → String
recovery_addr leader_addr r =
    if not (str_eq r.bootstrap_shard_id "") && not (str_eq r.bootstrap_leader_addr "")
    then r.bootstrap_leader_addr
    else if str_eq leader_addr ""
    then r.bootstrap_leader_addr
    else leader_addr

unfoldable pub recovery_source : ReplicaState → String
unfolding recovery_source_leader recovery_source_bootstrap
recovery_source r =
    if str_eq r.bootstrap_shard_id ""
    then recovery_source_leader r.leader_id
    else recovery_source_bootstrap r.bootstrap_shard_id

unfoldable pub tick_begin : String → ReplicaState → Tick
unfolding recovery_addr
tick_begin leader_addr r =
    let addr = recovery_addr leader_addr r in
    if r.is_ready
    then idle (record r { recovery_state = healthy; recovery_source = "" })
    else if str_eq addr ""
    then idle (record r { recovery_state = unavailable; recovery_source = "" })
    else attempt addr
        (record r { recovery_state = recovering; recovery_source = recovery_source r })

-- `seen` is the replica as the tick read it.
unfoldable pub tick_end : ReplicaState → ReplicaState → RecoveryResult → ReplicaState
tick_end seen r (failed e) = record r {
  recovery_state = lagging;
  recovery_source = recovery_source seen;
}
tick_end seen r _ = record r { recovery_count = r.recovery_count + 1 }
