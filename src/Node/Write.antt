-- ===== src/Node/Write.antt =====
-- `leaderWrite` of node/server.go with the fan-out of node/replication.go, and the write RPCs of
-- node/grpc.go.
-- `writeMu` admits one write at a time, but the replica's lock is released while the followers are
-- asked, and other handlers may run: `plan_write` is the part before, `finish_write` the part after,
-- on the replica as it is by then. `send` is what `sendReplicateRequest` answers for a peer before
-- the quorum timeout. Metrics and log lines are left out.
pub mod Laws
pub mod EndToEnd
pub mod Errors
use doki.Prelude.{
  ℕ, ◌+◌, ◌*◌, String, Bool, true, false, List, [], ◌∷◌, Option, none, some, ◌==◌, ltb, leb, u64,
  not, if◌then◌else◌, length,
}
use doki.Storage
use doki.Storage.{Pairs, lookup, with_pair}
use doki.ReplicationLog.{Entry}
use doki.Wal
use doki.Node.DiskState
use doki.Node.DiskState.{DiskState, Io}
use doki.Node.StateMachine
use doki.Node.StateMachine.{StateMachine, apply_with_wal}
use doki.Node.Replica.{
  ReplicaState, StatusSnapshot, GuardErr, healthy, ensure_leader_ready, status_snapshot,
}
use doki.Node.Quorum.{QuorumInfo, WriteResult, plan_quorum, has_live_quorum, result}
use doki.Node.Election.{addresses_of}

pub record KvRequest : Type 0 where
  pub op : String  -- "put" or "delete"
  pub key : String
  pub value : String

pub data WriteErr : Type 0 where
  guarded : GuardErr → WriteErr
  shard_map_stale : WriteErr
  quorum_unavailable : WriteErr
  apply_failed : StateMachine.Err → WriteErr

-- What the server knows when a write begins.
pub record View : Type 0 where
  pub now : ℕ
  pub shard_map_version : ℕ
  pub node_addresses : Pairs String
  pub leader_heartbeat : ℕ

pub record Plan : Type 0 where
  pub entry : Entry
  pub quorum : QuorumInfo

pub data Planned : Type 0 where
  go_on : Plan → Planned
  stop : WriteErr → Planned

unfoldable pub entry_for : ReplicaState → KvRequest → Entry
entry_for r req = record {
  term = r.term;
  version = u64 (r.version + 1);
  op = req.op;
  key = req.key;
  value = req.value;
}

unfoldable pub plan_guarded : View → ReplicaState → KvRequest → Option GuardErr → Planned
unfolding entry_for addresses_of
plan_guarded v r req (some e) = stop (guarded e)
plan_guarded v r req none =
    if r.shard_map_version == v.shard_map_version
    then go_on (record {
      entry = entry_for r req;
      quorum =
          plan_quorum (addresses_of v.node_addresses r.peers) r.peer_last_contact v.now
            (v.leader_heartbeat * 2);
    })
    else stop shard_map_stale

unfoldable pub plan_write : View → ReplicaState → KvRequest → Planned
unfolding plan_guarded ensure_leader_ready
plan_write v r req = plan_guarded v r req (ensure_leader_ready v.now r).1

-- The peers that acknowledge the entry.
unfoldable pub fan_out_replicate :
    (String → String → Entry → Bool) → Entry → Pairs String → List String
fan_out_replicate send e [] = []
fan_out_replicate send e ((id, addr) ∷ rest) =
    let more = fan_out_replicate send e rest in if send id addr e then id ∷ more else more

unfoldable pub touch_peers : ℕ → List String → Pairs ℕ → Pairs ℕ
touch_peers now [] last = last
touch_peers now (id ∷ ids) last = touch_peers now ids (with_pair last id now)

-- What the disk does while the write is committed.
pub record Outcomes : Type 0 where
  pub append : Wal.AppendOutcome
  pub snapshot : Io

-- A snapshot that is due and fails is only logged.
unfoldable pub snapshot_if_due : Io → Entry → StateMachine → StateMachine
unfolding StateMachine.snapshot
snapshot_if_due io e sm = elim sm.ds [
  | none ↦ sm
  | some ds ↦ record sm {
    ds = some (DiskState.maybe_snapshot io ds e.term e.version (StateMachine.snapshot sm).kv).0;
  }
]

unfoldable pub committed :
    Outcomes
    → Plan
    → ℕ
    → ReplicaState
    → StateMachine × Option StateMachine.Err
    → ReplicaState × (Option WriteErr × Option WriteResult)
unfolding snapshot_if_due result
committed o p acked r (sm, some e) = (record r { sm = sm }, (some (apply_failed e), none))
committed o p acked r (sm, none) = (
  record r {
    sm = snapshot_if_due o.snapshot p.entry sm;
    is_ready = true;
    recovery_state = healthy;
    recovery_source = "";
    write_ops_total = r.write_ops_total + 1;
  },
  (none, some (result p.quorum p.entry.version acked)),
)

unfoldable pub commit_with :
    Outcomes → Plan → ℕ → ReplicaState → ReplicaState × (Option WriteErr × Option WriteResult)
unfolding committed
commit_with o p acked r =
    committed o p acked r (StateMachine.apply o.append r.sm p.entry apply_with_wal)

unfoldable pub refuse : ReplicaState → ReplicaState × (Option WriteErr × Option WriteResult)
refuse r = (record r { write_err_total = r.write_err_total + 1 }, (some quorum_unavailable, none))

unfoldable pub finish_write :
    ℕ
    → Outcomes
    → Plan
    → List String
    → ReplicaState
    → ReplicaState × (Option WriteErr × Option WriteResult)
unfolding commit_with touch_peers refuse has_live_quorum
finish_write now o p acked r =
    if p.quorum.needed_followers == 0
    then commit_with o p 0 r
    else if not (has_live_quorum p.quorum)
    then refuse r
    else if ltb (length acked) p.quorum.needed_followers
    then refuse r
    else commit_with o p (length acked)
        (record r { peer_last_contact = touch_peers now acked r.peer_last_contact })

-- The peers that are told to recover after a write that too few acknowledged: those that did.
unfoldable pub forced_peers : Plan → List String → List String
forced_peers p acked =
    if p.quorum.needed_followers == 0
    then []
    else if ltb (length acked) p.quorum.needed_followers
    then acked
    else []

-- A write during which no other handler changes the replica.
unfoldable pub leader_write :
    (String → String → Entry → Bool)
    → View
    → Outcomes
    → ReplicaState
    → KvRequest
    → ReplicaState × (Option WriteErr × Option WriteResult)
unfolding fan_out_replicate
leader_write send v o r req = elim (plan_write v r req) [
  | stop e ↦ (r, (some e, none))
  | go_on p ↦ finish_write v.now o p (fan_out_replicate send p.entry p.quorum.live_peers) r
]

pub data PutResult : Type 0 where
  put_ok put_not_ready put_quorum_unavailable : PutResult
  put_not_leader : String → PutResult

reply_for : Option WriteErr → PutResult
reply_for none = put_ok
reply_for (some shard_map_stale) = put_not_ready
reply_for (some _) = put_quorum_unavailable

handle_guarded :
    (String → String → Entry → Bool)
    → View
    → Outcomes
    → ReplicaState
    → KvRequest
    → StatusSnapshot × Option GuardErr
    → ReplicaState × PutResult
unfolding reply_for
handle_guarded send v o r req (snap, some GuardErr.not_leader) = (r, put_not_leader snap.leader_id)
handle_guarded send v o r req (snap, some GuardErr.not_ready) = (r, put_not_ready)
handle_guarded send v o r req (snap, none) =
    let (after, outcome) = leader_write send v o r req in (after, reply_for outcome.0)

unfoldable pub handle_write :
    (String → String → Entry → Bool)
    → View
    → Outcomes
    → ReplicaState
    → KvRequest
    → ReplicaState × PutResult
unfolding handle_guarded
handle_write send v o r req = handle_guarded send v o r req (ensure_leader_ready v.now r)
