-- ===== src/Node/Rpc.antt =====
-- node/grpc.go: the RPC handlers of a node. Each holds the replica's lock from its first read of the
-- state to its last, so it is one step. `now` is what the clock reads. Metrics are left out.
pub mod Laws
pub mod Acks
use doki.Prelude.{
  ℕ, ◌+◌, String, Bool, true, false, List, [], ◌∷◌, Option, none, some, ◌==◌, ltb, leb, u64, not,
  ◌&&◌, ◌||◌, if◌then◌else◌, str_eq, length, map,
}
use doki.Storage
use doki.Storage.{Pairs, Kv, lookup, with_pair}
use doki.ReplicationLog.{Entry}
use doki.Wal
use doki.Node.StateMachine
use doki.Node.StateMachine.{StateMachine, StateSnapshot, apply_with_wal}
use doki.Node.Replica.{
  ReplicaState, Role, leader, follower, RecoveryState, healthy, lagging, with_term,
  recovery_source_leader, status_snapshot,
}

pub data OpType : Type 0 where
  unspecified put delete : OpType

pub record Operation : Type 0 where
  pub type : OpType
  pub key : String
  pub value : String

-- The status codes of a failed call.
pub data Code : Type 0 where
  not_found failed_precondition internal : Code

pub data Reply (A : Type 0) : Type 0 where
  reply : A → Reply A
  fail : Code → Reply A

-- A nil operation is `none`.
unfoldable pub op_from_proto : Option Operation → String × String × String
op_from_proto none = ("", "", "")
op_from_proto (some op) = elim op.type [
  | put ↦ ("put", op.key, op.value)
  | delete ↦ ("delete", op.key, "")
  | unspecified ↦ ("", op.key, op.value)
]

unfoldable pub op_to_proto : String → String → String → Operation
op_to_proto op key value =
    if str_eq op "put"
    then record { type = put; key = key; value = value }
    else if str_eq op "delete"
    then record { type = delete; key = key; value = "" }
    else record { type = unspecified; key = key; value = value }

pub record ReplicateRequest : Type 0 where
  pub term : ℕ
  pub version : ℕ
  pub op : Option Operation

pub record ReplicateResponse : Type 0 where
  pub success : Bool
  pub term : ℕ

-- `if replica.Role != RoleFollower { replica.Role = RoleFollower }` leaves the role at follower.
unfoldable pub step_down : ReplicaState → ℕ → ReplicaState
step_down r term = if ltb r.term term then record (with_term r term) { role = follower } else r

unfoldable pub mark_lagging : ℕ → ReplicaState → ReplicaState
unfolding StateMachine.reset_log recovery_source_leader
mark_lagging now r = record r {
  is_ready = false;
  recovery_state = lagging;
  recovery_source = recovery_source_leader r.leader_id;
  last_leader_contact = now;
  sm = StateMachine.reset_log r.sm;
}

unfoldable pub entry_of : ReplicateRequest → Entry
unfolding op_from_proto
entry_of req =
    let (op, key, value) = op_from_proto req.op in
    record { term = req.term; version = req.version; op = op; key = key; value = value }

after_apply :
    ℕ
    → ReplicateRequest
    → ReplicaState
    → StateMachine × Option StateMachine.Err
    → ReplicaState × Reply ReplicateResponse
after_apply now req r (sm, some e) = (record r { sm = sm }, fail internal)
after_apply now req r (sm, none) = (
  record r {
    sm = sm;
    is_ready = true;
    recovery_state = healthy;
    recovery_source = "";
    last_leader_contact = now;
  },
  reply (record { success = true; term = req.term }),
)

-- `Replicate` behind the test for a stale leader, at a replica that has taken the request's term.
unfoldable pub replicate_current :
    Wal.AppendOutcome → ℕ → ReplicaState → ReplicateRequest → ReplicaState × Reply ReplicateResponse
unfolding mark_lagging entry_of after_apply
replicate_current outcome now r req =
    if leb req.version r.version
    then (r, reply (record { success = true; term = r.term }))
    else if not (req.version == u64 (r.version + 1))
    then (mark_lagging now r, reply (record { success = false; term = r.term }))
    else after_apply now req r (StateMachine.apply outcome r.sm (entry_of req) apply_with_wal)

unfoldable pub replicate :
    Wal.AppendOutcome → ℕ → ReplicaState → ReplicateRequest → ReplicaState × Reply ReplicateResponse
unfolding step_down replicate_current
replicate outcome now r req =
    if ltb req.term r.term
    then (r, reply (record { success = false; term = r.term }))
    else replicate_current outcome now (step_down r req.term) req

unfoldable pub force_recover : ℕ → ReplicaState → ReplicaState
unfolding mark_lagging
force_recover now r = mark_lagging now r

pub record VoteRequest : Type 0 where
  pub term : ℕ
  pub candidate_id : String
  pub version : ℕ

pub record VoteResponse : Type 0 where
  pub term : ℕ
  pub vote_granted : Bool

adopt_term : ReplicaState → ℕ → ReplicaState
adopt_term r term =
    if ltb r.term term
    then record (with_term r term) { voted_for = ""; voted_for_term = 0; role = follower }
    else r

voted_for_other : ReplicaState → VoteRequest → Bool
voted_for_other r req =
    r.voted_for_term == req.term
    && (not (str_eq r.voted_for "") && not (str_eq r.voted_for req.candidate_id))

-- `RequestVote` behind the test for a stale term, at a replica that has taken the request's term.
vote_current : ℕ → ReplicaState → VoteRequest → ReplicaState × VoteResponse
unfolding voted_for_other
vote_current now r req =
    if voted_for_other r req
    then (r, record { term = r.term; vote_granted = false })
    else if ltb req.version r.version
    then (r, record { term = r.term; vote_granted = false })
    else (
      record r {
        voted_for = req.candidate_id;
        voted_for_term = req.term;
        last_leader_contact = now;
      },
      record { term = r.term; vote_granted = true },
    )

unfoldable pub request_vote : ℕ → ReplicaState → VoteRequest → ReplicaState × VoteResponse
unfolding adopt_term vote_current
request_vote now r req =
    if ltb req.term r.term
    then (r, record { term = r.term; vote_granted = false })
    else vote_current now (adopt_term r req.term) req

pub record LeaderHeartbeatRequest : Type 0 where
  pub term : ℕ
  pub version : ℕ
  pub leader_id : String

-- The reply is the replica's term.
unfoldable pub leader_heartbeat : ℕ → ReplicaState → LeaderHeartbeatRequest → ReplicaState × ℕ
unfolding step_down
leader_heartbeat now r req =
    if ltb req.term r.term
    then (r, r.term)
    else (let s = step_down r req.term in
        (record s { leader_id = req.leader_id; last_leader_contact = now }, s.term))

pub data GetResponse : Type 0 where
  get_ok : String → GetResponse
  get_not_found get_not_ready : GetResponse
  get_not_leader : String → GetResponse

found_or_not : Option String → GetResponse
found_or_not none = get_not_found
found_or_not (some v) = get_ok v

get_at : Role → Bool → String → Option String → GetResponse
unfolding found_or_not
get_at leader true leader_id v = found_or_not v
get_at leader false leader_id v = get_not_ready
get_at _ ready leader_id v = get_not_leader leader_id

unfoldable pub get : ReplicaState → String → GetResponse
unfolding get_at StateMachine.get
get r key = get_at r.role r.is_ready r.leader_id (StateMachine.get r.sm key)
