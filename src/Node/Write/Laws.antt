-- ===== src/Node/Write/Laws.antt =====
-- What a write of node/server.go that is answered with success, or refused, has done to the leader.
use doki.Prelude.{
  ℕ, ◌+◌, ◌≤◌, String, ◌≡◌, refl, sym, ap, ◌∙◌, arith, true, List, Option, none, some, length, u64,
  ltb, ◌==◌, inl, inr, Bool-cases, ltb_false→le,
}
use doki.ReplicationLog
use doki.ReplicationLog.{Entry}
use doki.Node.StateMachine
use doki.Node.StateMachine.{StateMachine, apply_with_wal}
use doki.Node.StateMachine.Laws.{apply-Applied}
use doki.Node.Replica.{ReplicaState}
use doki.Node.Quorum.{QuorumInfo, WriteResult, result, has_live_quorum}
use doki.Node.Write.{
  Plan, Outcomes, snapshot_if_due, committed, commit_with, finish_write, refuse, touch_peers,
}

-- What the leader has done when a write succeeds.
pub record Committed (p : Plan) (acked : ℕ) (r s : ReplicaState) (w : WriteResult) : Type 0 where
  pub enough : p.quorum.needed_followers ≤ acked
  pub next : p.entry.version ≡ u64 (r.version + 1)
  pub current : r.term ≤ p.entry.term
  pub effect : StateMachine.apply_op r.sm.kv p.entry ≡ some s.sm.kv
  pub version : s.version ≡ p.entry.version
  pub term : s.term ≡ p.entry.term
  pub log : s.sm.rep_log ≡ ReplicationLog.append r.sm.rep_log p.entry
  pub ready : s.is_ready ≡ true
  pub reported : w.applied_version ≡ p.entry.version

snapshot_keeps :
    (o : Outcomes) (e : Entry) (sm : StateMachine)
    → ((snapshot_if_due o.snapshot e sm).kv ≡ sm.kv)
      × ((snapshot_if_due o.snapshot e sm).version ≡ sm.version)
      × ((snapshot_if_due o.snapshot e sm).term ≡ sm.term)
      × ((snapshot_if_due o.snapshot e sm).rep_log ≡ sm.rep_log)
unfolding snapshot_if_due
snapshot_keeps o e sm = ground arith

committed_lem :
    (o : Outcomes) (p : Plan) (acked : ℕ) (r s : ReplicaState) (w : WriteResult)
    (res : StateMachine × Option StateMachine.Err)
    → committed o p acked r res ≡ (s, (none, some w))
    → (res.1 ≡ none)
      × (s.sm ≡ snapshot_if_due o.snapshot p.entry res.0)
      × (s.is_ready ≡ true)
      × (w ≡ result p.quorum p.entry.version acked)
unfolding committed
committed_lem o p acked r s w res h = ground arith

result_version :
    (q : QuorumInfo) (version acked : ℕ) → (result q version acked).applied_version ≡ version
unfolding result
result_version q version acked = refl

commit_with-Committed :
    (o : Outcomes) (p : Plan) (acked : ℕ) (r s : ReplicaState) (w : WriteResult)
    → p.quorum.needed_followers ≤ acked
    → commit_with o p acked r ≡ (s, (none, some w))
    → Committed p acked r s w
unfolding commit_with
commit_with-Committed o p acked r s w enough h =
    let res = StateMachine.apply o.append r.sm p.entry apply_with_wal in
    let c = committed_lem o p acked r s w res h in
    let a = apply-Applied o.append r.sm p.entry apply_with_wal res.0 (ap (λ x. (res.0, x)) c.0) in
    let k = snapshot_keeps o p.entry res.0 in
    record {
      enough = enough;
      next = a.next;
      current = a.current;
      effect = a.effect ∙ ap some (sym k.0 ∙ ap (λ (m : StateMachine). m.kv) (sym c.1));
      version = ap (λ (m : StateMachine). m.version) c.1 ∙ k.1 ∙ a.version;
      term = ap (λ (m : StateMachine). m.term) c.1 ∙ k.2 ∙ a.term;
      log = ap (λ (m : StateMachine). m.rep_log) c.1 ∙ k.3 ∙ a.log;
      ready = c.2;
      reported =
          ap (λ (x : WriteResult). x.applied_version) c.3
          ∙ result_version p.quorum p.entry.version acked;
    }

finish_write_cases :
    (now : ℕ) (o : Outcomes) (p : Plan) (acked : List String) (r s : ReplicaState) (w : WriteResult)
    → finish_write now o p acked r ≡ (s, (none, some w))
    → (t : ReplicaState) × (n : ℕ) × (t.sm ≡ r.sm)
      × (p.quorum.needed_followers ≤ n)
      × (n ≤ length acked)
      × (commit_with o p n t ≡ (s, (none, some w)))
unfolding finish_write refuse
finish_write_cases now o p acked r s w h = elim (Bool-cases (p.quorum.needed_followers == 0)) [
  | inl alone ↦ (r, 0, refl, ground arith, ground arith, rw alone at h)
  | inr more ↦ elim (Bool-cases (has_live_quorum p.quorum)) [
    | inr dead ↦ ground (refuse, arith)
    | inl live ↦ elim (Bool-cases (ltb (length acked) p.quorum.needed_followers)) [
      | inl few ↦ cc (rw (more, live, few) at h)
      | inr enough ↦ (
        record r { peer_last_contact = touch_peers now acked r.peer_last_contact },
        length acked,
        refl,
        ltb_false→le _ _ enough,
        ground arith,
        rw (more, live, enough) at h,
      )
    ]
  ]
]

-- A write that succeeds was acknowledged by as many followers as the plan asks for, and the leader
-- has performed it as the next version, in a term that is not below its own, appended it to its
-- replication log, and is ready.
pub finish_write-Committed :
    (now : ℕ) (o : Outcomes) (p : Plan) (acked : List String) (r s : ReplicaState) (w : WriteResult)
    → finish_write now o p acked r ≡ (s, (none, some w))
    → Committed p (length acked) r s w
finish_write-Committed now o p acked r s w h =
    let (t, n, same, need, few, c) = finish_write_cases now o p acked r s w h in
    let k = commit_with-Committed o p n t s w need c in
    record {
      enough = omega (arith, k.enough);
      next = k.next ∙ ap (λ (m : StateMachine). u64 (m.version + 1)) same;
      current = rw same at (k.current);
      effect = rw same at (k.effect);
      version = k.version;
      term = k.term;
      log = rw same at (k.log);
      ready = k.ready;
      reported = k.reported;
    }
