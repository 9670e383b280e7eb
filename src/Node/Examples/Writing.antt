-- ===== src/Node/Examples/Writing.antt =====
-- The theorems about writes in node/server.go, node/quorum.go and node/grpc.go at small replicas.
use doki.Prelude.{
  ℕ, String, ◌+◌, ◌*◌, ◌≤◌, ◌<◌, ◌≡◌, refl, arith, Bool, [], ◌∷◌, Option, none, some, true, false,
  inl, All, length, u64,
}
use doki.Storage
use doki.Storage.{Pairs}
use doki.ReplicationLog.{Entry}
use doki.Wal
use doki.Node.StateMachine
use doki.Node.StateMachine.{StateMachine}
use doki.Node.Replica.{ReplicaState, leader, follower}
use doki.Node.Quorum.{WriteResult, plan_quorum, has_live_quorum, result}
use doki.Node.Quorum.Laws.{IsSilent, plan_quorum_majority, plan_quorum_silent}
use doki.Node.Rpc.{ReplicateRequest, replicate, reply, put}
use doki.Node.Rpc.Acks.{Acked, HasLog, replicate-Acked, replicate-HasLog}
use doki.Node.Election.{addresses_of}
use doki.Node.Write.{
  View, KvRequest, Outcomes, leader_write, plan_write, finish_write, fan_out_replicate,
  quorum_unavailable,
}
use doki.Node.Write.Laws.{Committed}
use doki.Node.Write.Errors.{Unchanged, leader_write_error_keeps}
use doki.Node.Write.EndToEnd.{MayWrite, plan_for, leader_write-Committed, leader_write_succeeds}
use doki.Node.Examples.{machine, replica, io_works}

abbrev contacts : Pairs ℕ
contacts = ("n2", 95) ∷ ("n3", 10) ∷ []

abbrev lead : ReplicaState
lead = replica "n1" leader true (machine [] [] 1 4) ("n2" ∷ "n3" ∷ []) contacts

abbrev view : View
view = record {
  now = 100;
  shard_map_version = 1;
  node_addresses = ("n1", "h1") ∷ ("n2", "h2") ∷ ("n3", "h3") ∷ [];
  leader_heartbeat = 10;
}

abbrev request : KvRequest
request = record { op = "put"; key = "a"; value = "x" }

abbrev outcomes : Outcomes
outcomes = record { append = Wal.durable; snapshot = io_works }

abbrev all_answer : String → String → Entry → Bool
all_answer id addr e = true

abbrev after_write : ReplicaState
after_write = (leader_write all_answer view outcomes lead request).0

abbrev answered : WriteResult
answered = record { applied_version = 5; quorum = 2; acked_followers = 1; total_eligible = 2 }

write_done :
    leader_write all_answer view outcomes lead request ≡ (after_write, (none, some answered))
unfolding leader_write Storage.lookup Storage.with_pair Storage.without plan_write finish_write
    plan_quorum StateMachine.apply
write_done = refl

leader_write-Committed_example :
    let p = plan_for view lead request in
    MayWrite view lead
    × Committed p
        (length (fan_out_replicate all_answer p.entry p.quorum.live_peers))
        lead
        after_write
        answered
leader_write-Committed_example =
    leader_write-Committed all_answer view outcomes lead after_write request answered write_done

enough_answer :
    let p = plan_for view lead request in
    p.quorum.needed_followers ≤ length (fan_out_replicate all_answer p.entry p.quorum.live_peers)
unfolding plan_for fan_out_replicate plan_quorum Storage.lookup Storage.with_pair Storage.without
    addresses_of
enough_answer = omega arith

leader_write_succeeds_example :
    (n : ℕ) × ((leader_write all_answer view outcomes lead request).1
      ≡ (none, some (result (plan_for view lead request).quorum (u64 (4 + 1)) n)))
leader_write_succeeds_example =
    leader_write_succeeds all_answer view outcomes lead request (refl, refl, refl) (inl refl) refl
      enough_answer

abbrev none_answer : String → String → Entry → Bool
none_answer id addr e = false

abbrev after_refused : ReplicaState
after_refused = (leader_write none_answer view outcomes lead request).0

write_refused :
    leader_write none_answer view outcomes lead request
    ≡ (after_refused, (some quorum_unavailable, none))
unfolding leader_write Storage.lookup Storage.with_pair Storage.without plan_write finish_write
    plan_quorum
write_refused = refl

leader_write_error_keeps_example :
    (◌≡◌ {A = Option WriteResult} none none) × Unchanged lead after_refused quorum_unavailable
leader_write_error_keeps_example =
    leader_write_error_keeps none_answer view outcomes lead after_refused request quorum_unavailable
      none write_refused

abbrev addrs : Pairs String
addrs = ("n2", "h2") ∷ ("n3", "h3") ∷ []

plan_quorum_majority_example :
    let q = plan_quorum addrs contacts 100 20 in
    (q.total_eligible < q.quorum * 2)
    × (q.quorum ≤ q.total_eligible)
    × (q.needed_followers + 1 ≡ q.quorum)
    × (has_live_quorum q ≡ true)
plan_quorum_majority_example = plan_quorum_majority addrs contacts 100 20

All-IsSilent : All (λ (p : String × String). IsSilent [] 100 20 p.0) addrs
unfolding Storage.lookup
All-IsSilent = (inl refl, (inl refl, tt))

plan_quorum_silent_example :
    let q = plan_quorum addrs [] 100 20 in
    (q.live_peers ≡ []) × (q.quorum ≡ 1) × (q.needed_followers ≡ 0)
plan_quorum_silent_example = plan_quorum_silent addrs [] 100 20 (omega arith) All-IsSilent

abbrev behind : ReplicaState
behind = replica "n2" follower true (machine [] [] 1 4) ("n1" ∷ "n3" ∷ []) []

abbrev ask : ReplicateRequest
ask = record { term = 2; version = 5; op = some (record { type = put; key = "a"; value = "x" }) }

abbrev after_ask : ReplicaState
after_ask = (replicate Wal.durable 30 behind ask).0

acknowledged :
    replicate Wal.durable 30 behind ask ≡ (after_ask, reply (record { success = true; term = 2 }))
unfolding replicate Storage.with_pair Storage.without StateMachine.apply
acknowledged = refl

replicate-Acked_example : Acked behind ask after_ask (record { success = true; term = 2 })
replicate-Acked_example =
    replicate-Acked Wal.durable 30 behind ask after_ask (record { success = true; term = 2 })
      acknowledged refl

behind-HasLog : HasLog behind
behind-HasLog = record {
  base = 4;
  chain = tt;
  ends = refl;
  room = omega arith;
  bounded = omega arith;
}

replicate-HasLog_example : HasLog (replicate Wal.durable 30 behind ask).0
replicate-HasLog_example = replicate-HasLog Wal.durable 30 behind ask (omega arith) behind-HasLog
