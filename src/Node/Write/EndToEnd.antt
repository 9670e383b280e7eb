-- ===== src/Node/Write/EndToEnd.antt =====
-- `leaderWrite` of node/server.go from the guard to the answer.
use doki.Prelude.{
  ℕ, ◌+◌, ◌*◌, ◌≤◌, String, ◌≡◌, refl, sym, arith, Bool, true, List, Option, none, some, length,
  u64, ◌==◌, inl, inr, Bool-cases, le→ltb_false,
}
use doki.ReplicationLog.{Entry}
use doki.Wal
use doki.Node.StateMachine
use doki.Node.StateMachine.{StateMachine, apply_with_wal}
use doki.Node.Quorum.{has_live_quorum}
use doki.Node.Quorum.Laws.{plan_quorum_majority}
use doki.Node.StateMachine.Laws.{IsOp, apply_succeeds}
use doki.Node.Replica.{ReplicaState, leader}
use doki.Node.Quorum.{WriteResult, plan_quorum, result}
use doki.Node.Election.{addresses_of}
use doki.Node.Write.{
  KvRequest, View, Plan, go_on, entry_for, plan_write, Outcomes, commit_with, committed,
  finish_write, fan_out_replicate, leader_write, touch_peers,
}
use doki.Node.Write.Laws.{Committed, finish_write-Committed}

-- The plan of a write that passes the guards.
unfoldable pub plan_for : View → ReplicaState → KvRequest → Plan
plan_for v r req = record {
  entry = entry_for r req;
  quorum =
      plan_quorum (addresses_of v.node_addresses r.peers) r.peer_last_contact v.now
        (v.leader_heartbeat * 2);
}

-- The replica leads, is ready, and has the server's version of the shard map.
abbrev pub MayWrite : View → ReplicaState → Type 0
MayWrite v r = (r.role ≡ leader) × (r.is_ready ≡ true) × (r.shard_map_version ≡ v.shard_map_version)

plan_write_guards :
    (v : View) (r : ReplicaState) (req : KvRequest) (p : Plan)
    → plan_write v r req ≡ go_on p
    → MayWrite v r × (p ≡ plan_for v r req)
unfolding plan_write plan_for
plan_write_guards v r req p h = ground arith

plan_write_passes :
    (v : View) (r : ReplicaState) (req : KvRequest)
    → MayWrite v r
    → plan_write v r req ≡ go_on (plan_for v r req)
unfolding plan_write plan_for
plan_write_passes v r req m = ground (arith, m.0, m.1, m.2)

leader_write_planned :
    (send : String → String → Entry → Bool) (v : View) (o : Outcomes) (r s : ReplicaState)
    (req : KvRequest) (w : WriteResult)
    → leader_write send v o r req ≡ (s, (none, some w))
    → (p : Plan) × (plan_write v r req ≡ go_on p)
      × (finish_write v.now o p (fan_out_replicate send p.entry p.quorum.live_peers) r
          ≡ (s, (none, some w)))
unfolding leader_write
leader_write_planned send v o r s req w h = ground arith

-- A write that `leaderWrite` answers without an error was made at a ready leader whose map is
-- current; as many live peers as the plan for these peers asks for acknowledged it; and the leader
-- has performed it as its next version, in its own term.
pub leader_write-Committed :
    (send : String → String → Entry → Bool) (v : View) (o : Outcomes) (r s : ReplicaState)
    (req : KvRequest) (w : WriteResult)
    → leader_write send v o r req ≡ (s, (none, some w))
    → let p = plan_for v r req in
      MayWrite v r × Committed p (length (fan_out_replicate send p.entry p.quorum.live_peers)) r s w
leader_write-Committed send v o r s req w h =
    let (p, planned, done) = leader_write_planned send v o r s req w h in
    let g = plan_write_guards v r req p planned in
    (
      g.0,
      finish_write-Committed v.now o (plan_for v r req)
          (fan_out_replicate send (plan_for v r req).entry (plan_for v r req).quorum.live_peers) r s
          w (rw g.1 at done),
    )

committed_succeeds :
    (o : Outcomes) (p : Plan) (acked : ℕ) (r : ReplicaState)
    (res : StateMachine × Option StateMachine.Err)
    → res.1 ≡ none
    → (committed o p acked r res).1 ≡ (none, some (result p.quorum p.entry.version acked))
unfolding committed
committed_succeeds o p acked r res h = ground arith

finish_write_enough :
    (now : ℕ) (o : Outcomes) (p : Plan) (acked : List String) (r : ReplicaState)
    → p.quorum.needed_followers ≤ length acked
    → has_live_quorum p.quorum ≡ true
    → (t : ReplicaState) × (n : ℕ) × (t.sm ≡ r.sm)
      × (finish_write now o p acked r ≡ commit_with o p n t)
unfolding finish_write
finish_write_enough now o p acked r h live = elim (Bool-cases (p.quorum.needed_followers == 0)) [
  | inl alone ↦ (r, 0, refl, rw alone)
  | inr more ↦ (
    record r { peer_last_contact = touch_peers now acked r.peer_last_contact },
    length acked,
    refl,
    rw (more, live, le→ltb_false _ _ h),
  )
]

plan_for_fields :
    (v : View) (r : ReplicaState) (req : KvRequest)
    → ((plan_for v r req).entry.version ≡ u64 (r.version + 1))
      × ((plan_for v r req).entry.term ≡ r.term)
      × ((plan_for v r req).entry.op ≡ req.op)
      × (has_live_quorum (plan_for v r req).quorum ≡ true)
unfolding plan_for entry_for
plan_for_fields v r req = (
  refl,
  refl,
  refl,
  (plan_quorum_majority (addresses_of v.node_addresses r.peers) r.peer_last_contact v.now
      (v.leader_heartbeat * 2)).3,
)

commit_with_succeeds :
    (o : Outcomes) (p : Plan) (n : ℕ) (t : ReplicaState)
    → o.append ≡ Wal.durable
    → p.entry.version ≡ u64 (t.version + 1)
    → t.term ≤ p.entry.term
    → IsOp p.entry.op
    → (commit_with o p n t).1 ≡ (none, some (result p.quorum p.entry.version n))
unfolding commit_with
commit_with_succeeds o p n t disk next current known =
    committed_succeeds o p n t (StateMachine.apply o.append t.sm p.entry apply_with_wal)
      (rw disk (apply_succeeds t.sm p.entry apply_with_wal next current known))

pub leader_write_passes :
    (send : String → String → Entry → Bool) (v : View) (o : Outcomes) (r : ReplicaState)
    (req : KvRequest) (p : Plan)
    → plan_write v r req ≡ go_on p
    → leader_write send v o r req
      ≡ finish_write v.now o p (fan_out_replicate send p.entry p.quorum.live_peers) r
unfolding leader_write
leader_write_passes send v o r req p h = ground (h, arith)

-- A put or delete at a ready leader whose map is current succeeds, and reports the next version, if
-- the leader's log takes the entry and as many live peers as the plan asks for acknowledge it.
pub leader_write_succeeds :
    (send : String → String → Entry → Bool) (v : View) (o : Outcomes) (r : ReplicaState)
    (req : KvRequest)
    → MayWrite v r
    → IsOp req.op
    → o.append ≡ Wal.durable
    → let p = plan_for v r req in
      p.quorum.needed_followers ≤ length (fan_out_replicate send p.entry p.quorum.live_peers)
      → (n : ℕ) × ((leader_write send v o r req).1
          ≡ (none, some (result (plan_for v r req).quorum (u64 (r.version + 1)) n)))
leader_write_succeeds send v o r req may known disk enough =
    let p = plan_for v r req in
    let f = plan_for_fields v r req in
    let (t, n, same, e) =
      finish_write_enough v.now o p (fan_out_replicate send p.entry p.quorum.live_peers) r enough
        f.3 in
    (
      n,
      rw (leader_write_passes send v o r req p (plan_write_passes v r req may), e, sym f.0)
          (commit_with_succeeds o p n t disk (rw same (f.0)) (rw same (omega (arith, f.1)))
            (rw f.2 known)),
    )
