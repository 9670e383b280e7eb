-- ===== src/Node/Write/Errors.antt =====
-- What a write of node/server.go that is answered with an error has done to the leader.
use doki.Prelude.{
  ℕ, ◌≡◌, refl, sym, ap, ◌∙◌, arith, String, Bool, List, Option, none, some, ◌⊎◌, inl, inr, length,
  ltb, ◌==◌, Bool-cases,
}
use doki.ReplicationLog.{Entry}
use doki.Node.StateMachine
use doki.Node.StateMachine.{StateMachine, apply_with_wal}
use doki.Node.StateMachine.Laws.{apply_error_keeps}
use doki.Node.Replica.{ReplicaState}
use doki.Node.Quorum.{WriteResult, has_live_quorum}
use doki.Node.Write.EndToEnd.{leader_write_passes}
use doki.Node.Write.{
  KvRequest, View, Plan, Planned, WriteErr, apply_failed, go_on, stop, plan_write, Outcomes,
  committed, commit_with, finish_write, refuse, fan_out_replicate, leader_write, touch_peers,
}

-- The readers of a replica see what they saw before; its disk may have changed if `Apply` failed.
pub record Unchanged (r s : ReplicaState) (e : WriteErr) : Type 0 where
  pub pairs : s.sm.kv ≡ r.sm.kv
  pub version : s.version ≡ r.version
  pub term : s.term ≡ r.term
  pub log : s.sm.rep_log ≡ r.sm.rep_log
  pub role : s.role ≡ r.role
  pub ready : s.is_ready ≡ r.is_ready
  pub disk : (s.sm ≡ r.sm) ⊎ ((x : StateMachine.Err) × (e ≡ apply_failed x))

same-Unchanged :
    (r s : ReplicaState) (e : WriteErr)
    → s.sm ≡ r.sm
    → s.role ≡ r.role
    → s.is_ready ≡ r.is_ready
    → Unchanged r s e
same-Unchanged r s e sm role ready = record {
  pairs = ap (λ (m : StateMachine). m.kv) sm;
  version = ap (λ (m : StateMachine). m.version) sm;
  term = ap (λ (m : StateMachine). m.term) sm;
  log = ap (λ (m : StateMachine). m.rep_log) sm;
  role = role;
  ready = ready;
  disk = inl sm;
}

refuse-Unchanged :
    (r s : ReplicaState) (e : WriteErr) (w : Option WriteResult)
    → refuse r ≡ (s, (some e, w))
    → (w ≡ none) × Unchanged r s e
unfolding refuse
refuse-Unchanged r s e w h =
    let k : (w ≡ none) × (s.sm ≡ r.sm) × (s.role ≡ r.role) × (s.is_ready ≡ r.is_ready) =
      ground (arith, h) in
    (k.0, same-Unchanged r s e k.1 k.2 k.3)

committed_error :
    (o : Outcomes) (p : Plan) (acked : ℕ) (r s : ReplicaState) (e : WriteErr)
    (w : Option WriteResult) (res : StateMachine × Option StateMachine.Err)
    → committed o p acked r res ≡ (s, (some e, w))
    → (x : StateMachine.Err) × (res.1 ≡ some x)
      × (e ≡ apply_failed x)
      × (w ≡ none)
      × (s.sm ≡ res.0)
      × (s.role ≡ r.role)
      × (s.is_ready ≡ r.is_ready)
unfolding committed
committed_error o p acked r s e w (sm, some x) h =
    let k : (e ≡ apply_failed x)
        × (w ≡ none)
        × (s.sm ≡ sm)
        × (s.role ≡ r.role)
        × (s.is_ready ≡ r.is_ready) =
      ground (arith, h) in
    (x, refl, k.0, k.1, k.2, k.3, k.4)
committed_error o p acked r s e w (sm, none) h = ground (arith, h)

commit_with-Unchanged :
    (o : Outcomes) (p : Plan) (acked : ℕ) (r s : ReplicaState) (e : WriteErr)
    (w : Option WriteResult)
    → commit_with o p acked r ≡ (s, (some e, w))
    → (w ≡ none) × Unchanged r s e
unfolding commit_with
commit_with-Unchanged o p acked r s e w h =
    let res = StateMachine.apply o.append r.sm p.entry apply_with_wal in
    let (x, failed, error, nothing, sm, role, ready) = committed_error o p acked r s e w res h in
    let k =
      apply_error_keeps o.append r.sm p.entry apply_with_wal res.0 (ap (λ y. (res.0, y)) failed) in
    (
      nothing,
      record {
        pairs = ap (λ (m : StateMachine). m.kv) sm ∙ k.0;
        version = ap (λ (m : StateMachine). m.version) sm ∙ k.1;
        term = ap (λ (m : StateMachine). m.term) sm ∙ k.2;
        log = ap (λ (m : StateMachine). m.rep_log) sm ∙ k.3;
        role = role;
        ready = ready;
        disk = inr (x, error);
      },
    )

finish_write-Unchanged :
    (now : ℕ) (o : Outcomes) (p : Plan) (acked : List String) (r s : ReplicaState) (e : WriteErr)
    (w : Option WriteResult)
    → finish_write now o p acked r ≡ (s, (some e, w))
    → (w ≡ none) × Unchanged r s e
unfolding finish_write
finish_write-Unchanged now o p acked r s e w h =
    elim (Bool-cases (p.quorum.needed_followers == 0)) [
      | inl alone ↦ commit_with-Unchanged o p 0 r s e w (rw alone at h)
      | inr more ↦ elim (Bool-cases (has_live_quorum p.quorum)) [
        | inr dead ↦ refuse-Unchanged r s e w (rw (more, dead) at h)
        | inl live ↦ elim (Bool-cases (ltb (length acked) p.quorum.needed_followers)) [
          | inl few ↦ refuse-Unchanged r s e w (rw (more, live, few) at h)
          | inr enough ↦
              let t : ReplicaState = record r {
                peer_last_contact = touch_peers now acked r.peer_last_contact;
              } in
              let k =
                commit_with-Unchanged o p (length acked) t s e w (rw (more, live, enough) at h) in
              (
                k.0,
                record {
                  pairs = k.1.pairs;
                  version = k.1.version;
                  term = k.1.term;
                  log = k.1.log;
                  role = k.1.role;
                  ready = k.1.ready;
                  disk = k.1.disk;
                },
              )
        ]
      ]
    ]

Planned-cases : (q : Planned) → ((p : Plan) × (q ≡ go_on p)) ⊎ ((x : WriteErr) × (q ≡ stop x))
Planned-cases (go_on p) = inl (p, refl)
Planned-cases (stop x) = inr (x, refl)

leader_write_stops :
    (send : String → String → Entry → Bool) (v : View) (o : Outcomes) (r s : ReplicaState)
    (req : KvRequest) (x e : WriteErr) (w : Option WriteResult)
    → plan_write v r req ≡ stop x
    → leader_write send v o r req ≡ (s, (some e, w))
    → (w ≡ none) × Unchanged r s e
unfolding leader_write
leader_write_stops send v o r s req x e w stops h =
    let k : (w ≡ none) × (s.sm ≡ r.sm) × (s.role ≡ r.role) × (s.is_ready ≡ r.is_ready) =
      ground (arith, stops, h) in
    (k.0, same-Unchanged r s e k.1 k.2 k.3)

-- A write that `leaderWrite` answers with an error, from the guards, the shard map, the quorum or
-- `Apply`, reports no result and leaves the leader's pairs, version, term, replication log, role and
-- readiness as they were, and the disk too unless it was `Apply` that failed.
pub leader_write_error_keeps :
    (send : String → String → Entry → Bool) (v : View) (o : Outcomes) (r s : ReplicaState)
    (req : KvRequest) (e : WriteErr) (w : Option WriteResult)
    → leader_write send v o r req ≡ (s, (some e, w))
    → (w ≡ none) × Unchanged r s e
leader_write_error_keeps send v o r s req e w h = elim (Planned-cases (plan_write v r req)) [
  | inl (p, planned) ↦
      finish_write-Unchanged v.now o p (fan_out_replicate send p.entry p.quorum.live_peers) r s e w
        (sym (leader_write_passes send v o r req p planned) ∙ h)
  | inr (x, stops) ↦ leader_write_stops send v o r s req x e w stops h
]
