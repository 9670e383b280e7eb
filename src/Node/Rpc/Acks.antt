-- ===== src/Node/Rpc/Acks.antt =====
-- What an acknowledgement of `Replicate` in node/grpc.go means, and what the handler does to the log.
use doki.Prelude.{
  ℕ, ◌+◌, ◌≤◌, ◌<◌, ◌≡◌, refl, sym, ap, ◌∙◌, arith, Bool, true, false, Bool-cases, inl, inr, ◌⊎◌,
  Option, none, some, max_u64, u64, ltb, leb, ltb→lt, ltb_false→le, le→leb, leb→le, leb_false→lt,
}
use doki.ReplicationLog.Laws.{EndsAt, reset-EndsAt}
use doki.Wal
use doki.Node.StateMachine
use doki.Node.StateMachine.{StateMachine, apply_with_wal}
use doki.Node.StateMachine.Laws.{apply_any-EndsAt, apply-Applied}
use doki.Node.Replica.{ReplicaState}
use doki.Node.Rpc.{
  Reply, reply, fail, ReplicateRequest, ReplicateResponse, step_down, entry_of, after_apply,
  replicate_current, replicate,
}
use doki.Node.Rpc.Laws.{replicate_fresh, replicate_stale}

-- The log of a replica is consecutive and ends at its version.
abbrev pub HasLog : ReplicaState → Type 0
HasLog r = EndsAt r.version r.sm.rep_log

abbrev pub is_success : Reply ReplicateResponse → Bool
is_success (fail c) = false
is_success (reply a) = a.success

step_down_state :
    (r : ReplicaState) (term : ℕ)
    → r.term ≤ term
    → ((step_down r term).term ≡ term)
      × ((step_down r term).version ≡ r.version)
      × ((step_down r term).sm.kv ≡ r.sm.kv)
      × ((step_down r term).sm.rep_log ≡ r.sm.rep_log)
unfolding step_down
step_down_state r term h = ground arith

-- What an acknowledgement shows: the follower already was at the entry's version or past it, whatever
-- it holds there, or has just applied the entry as its next one. It is in the leader's term.
pub record Acked (r : ReplicaState) (req : ReplicateRequest) (s : ReplicaState)
    (a : ReplicateResponse) : Type 0 where
  pub current : r.term ≤ req.term
  pub same_term : a.term ≡ req.term
  pub reached : req.version ≤ s.version
  pub held :
      ((req.version ≤ r.version) × (s.version ≡ r.version) × (s.sm.kv ≡ r.sm.kv))
      ⊎ ((r.version < req.version)
          × (s.version ≡ req.version)
          × (req.version ≡ u64 (r.version + 1))
          × (StateMachine.apply_op r.sm.kv (entry_of req) ≡ some s.sm.kv))

after_apply_acked :
    (now : ℕ) (req : ReplicateRequest) (r s : ReplicaState) (a : ReplicateResponse)
    (res : StateMachine × Option StateMachine.Err)
    → after_apply now req r res ≡ (s, reply a)
    → (res.1 ≡ none) × (s.sm ≡ res.0) × (a.term ≡ req.term)
unfolding after_apply
after_apply_acked now req r s a res h = ground arith

Acked-duplicate :
    (outcome : Wal.AppendOutcome) (now : ℕ) (r : ReplicaState) (req : ReplicateRequest)
    (s : ReplicaState) (a : ReplicateResponse)
    → r.term ≡ req.term
    → req.version ≤ r.version
    → replicate_current outcome now r req ≡ (s, reply a)
    → Acked r req s a
unfolding replicate_current
Acked-duplicate outcome now r req s a same dup h =
    let e : (s ≡ r) × (a.term ≡ r.term) = ground (arith, le→leb _ _ dup) in
    rw e.0 (record {
      current = omega arith;
      same_term = e.1 ∙ same;
      reached = dup;
      held = inl (dup, refl, refl);
    })

replicate_next :
    (outcome : Wal.AppendOutcome) (now : ℕ) (r : ReplicaState) (req : ReplicateRequest)
    (s : ReplicaState) (a : ReplicateResponse)
    → r.version < req.version
    → replicate_current outcome now r req ≡ (s, reply a)
    → a.success ≡ true
    → after_apply now req r (StateMachine.apply outcome r.sm (entry_of req) apply_with_wal)
      ≡ (s, reply a)
unfolding replicate_current
replicate_next outcome now r req s a new h ok = ground arith

entry_of_fields :
    (req : ReplicateRequest)
    → ((entry_of req).version ≡ req.version) × ((entry_of req).term ≡ req.term)
unfolding entry_of
entry_of_fields req = (refl, refl)

Acked-applied :
    (outcome : Wal.AppendOutcome) (now : ℕ) (r : ReplicaState) (req : ReplicateRequest)
    (s : ReplicaState) (a : ReplicateResponse)
    → r.term ≡ req.term
    → r.version < req.version
    → replicate_current outcome now r req ≡ (s, reply a)
    → a.success ≡ true
    → Acked r req s a
Acked-applied outcome now r req s a same new h ok =
    let res = StateMachine.apply outcome r.sm (entry_of req) apply_with_wal in
    let k = after_apply_acked now req r s a res (replicate_next outcome now r req s a new h ok) in
    let p =
      apply-Applied outcome r.sm (entry_of req) apply_with_wal res.0 (ap (λ o. (res.0, o)) k.0) in
    let f = entry_of_fields req in
    record {
      current = omega arith;
      same_term = k.2;
      reached = rw k.1 (omega (arith, p.version, f.0));
      held = rw k.1 (inr (new, p.version ∙ f.0, sym f.0 ∙ p.next, p.effect));
    }

Acked-current :
    (outcome : Wal.AppendOutcome) (now : ℕ) (r : ReplicaState) (req : ReplicateRequest)
    (s : ReplicaState) (a : ReplicateResponse)
    → r.term ≡ req.term
    → replicate_current outcome now r req ≡ (s, reply a)
    → a.success ≡ true
    → Acked r req s a
Acked-current outcome now r req s a same h ok = elim (Bool-cases (leb req.version r.version)) [
  | inl dup ↦ Acked-duplicate outcome now r req s a same (leb→le _ _ dup) h
  | inr new ↦ Acked-applied outcome now r req s a same (leb_false→lt _ _ new) h ok
]

Acked-step_down :
    (r : ReplicaState) (req : ReplicateRequest) (s : ReplicaState) (a : ReplicateResponse)
    → r.term ≤ req.term
    → Acked (step_down r req.term) req s a
    → Acked r req s a
Acked-step_down r req s a h k =
    let d = step_down_state r req.term h in
    record {
      current = h;
      same_term = k.same_term;
      reached = k.reached;
      held = elim k.held [
        | inl (old, version, kv) ↦ inl (omega (arith, d.1), version ∙ d.1, kv ∙ d.2)
        | inr (new, version, next, effect) ↦
            inr (omega (arith, d.1), version, next ∙ ap (λ v. u64 (v + 1)) d.1, rw d.2 at effect)
      ];
    }

Acked-fresh :
    (outcome : Wal.AppendOutcome) (now : ℕ) (r : ReplicaState) (req : ReplicateRequest)
    (s : ReplicaState) (a : ReplicateResponse)
    → r.term ≤ req.term
    → replicate outcome now r req ≡ (s, reply a)
    → a.success ≡ true
    → Acked r req s a
Acked-fresh outcome now r req s a h e ok = Acked-step_down r req s a h (
    Acked-current outcome now (step_down r req.term) req s a (step_down_state r req.term h).0
      (sym (replicate_fresh outcome now r req h) ∙ e) ok)

-- A follower acknowledges an entry only if its term is not above the leader's, and only in one of two
-- cases: it was at the entry's version already or past it, by whatever entries, and keeps its version
-- and pairs; or the entry's version is the next one and it has performed the entry's operation.
pub replicate-Acked :
    (outcome : Wal.AppendOutcome) (now : ℕ) (r : ReplicaState) (req : ReplicateRequest)
    (s : ReplicaState) (a : ReplicateResponse)
    → replicate outcome now r req ≡ (s, reply a)
    → a.success ≡ true
    → Acked r req s a
replicate-Acked outcome now r req s a h ok = elim (Bool-cases (ltb req.term r.term)) [
  | inl stale ↦ cc (rw (replicate_stale outcome now r req (ltb→lt _ _ stale)) at h, ok)
  | inr fresh ↦ Acked-fresh outcome now r req s a (ltb_false→le _ _ fresh) h ok
]

replicate_current_sm :
    (outcome : Wal.AppendOutcome) (now : ℕ) (r : ReplicaState) (req : ReplicateRequest)
    → ((replicate_current outcome now r req).0.sm ≡ r.sm)
      ⊎ (((replicate_current outcome now r req).0.sm ≡ StateMachine.reset_log r.sm)
          ⊎ ((replicate_current outcome now r req).0.sm
              ≡ (StateMachine.apply outcome r.sm (entry_of req) apply_with_wal).0))
unfolding replicate_current
replicate_current_sm outcome now r req = ground arith

reset_log-EndsAt :
    (sm : StateMachine)
    → EndsAt sm.version sm.rep_log
    → EndsAt (StateMachine.reset_log sm).version (StateMachine.reset_log sm).rep_log
unfolding StateMachine.reset_log
reset_log-EndsAt sm k = reset-EndsAt sm.version sm.version sm.rep_log k

replicate_current-HasLog :
    (outcome : Wal.AppendOutcome) (now : ℕ) (r : ReplicaState) (req : ReplicateRequest)
    → r.version < max_u64
    → HasLog r
    → HasLog (replicate_current outcome now r req).0
replicate_current-HasLog outcome now r req small k = elim (replicate_current_sm outcome now r req) [
  | inl same ↦ rw same k
  | inr (inl gap) ↦ rw gap (reset_log-EndsAt r.sm k)
  | inr (inr next) ↦ rw next (apply_any-EndsAt outcome r.sm (entry_of req) apply_with_wal small k)
]

-- Every call of `Replicate`, failed or not, at a version below the largest keeps the log consecutive
-- up to the version, and within its bound.
pub replicate-HasLog :
    (outcome : Wal.AppendOutcome) (now : ℕ) (r : ReplicaState) (req : ReplicateRequest)
    → r.version < max_u64
    → HasLog r
    → HasLog (replicate outcome now r req).0
replicate-HasLog outcome now r req small k = elim (Bool-cases (ltb req.term r.term)) [
  | inl stale ↦ rw (replicate_stale outcome now r req (ltb→lt _ _ stale)) k
  | inr fresh ↦
      let d = step_down_state r req.term (ltb_false→le _ _ fresh) in
      rw (replicate_fresh outcome now r req (ltb_false→le _ _ fresh)) (
        replicate_current-HasLog outcome now (step_down r req.term) req (omega (arith, d.1))
          (rw (d.1, d.3) k))
]
