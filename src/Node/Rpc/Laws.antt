-- ===== src/Node/Rpc/Laws.antt =====
-- What the handlers of node/grpc.go do to a replica's term, vote and log.
use doki.Prelude.{
  ℕ, ◌≤◌, ◌<◌, ◌≡◌, refl, ◌∙◌, arith, false, Bool-cases, inl, inr, ltb, le→ltb_false, lt→ltb,
  ltb→lt, ltb_false→le,
}
use native.Mathlib.Nat.{le_refl}
use doki.Wal
use doki.Node.StateMachine.{apply_with_wal}
use doki.Node.StateMachine.Laws.{term-le-apply}
use doki.Node.Replica.{ReplicaState}
use doki.Node.Rpc.{
  reply, ReplicateRequest, LeaderHeartbeatRequest, step_down, entry_of, replicate_current,
  replicate, leader_heartbeat, force_recover,
}

-- The term does not fall, and the vote is left alone.
abbrev pub Calm : ReplicaState → ReplicaState → Type 0
Calm r s = (r.term ≤ s.term) × (s.voted_for ≡ r.voted_for) × (s.voted_for_term ≡ r.voted_for_term)

pub Calm-trans : (r s t : ReplicaState) → Calm r s → Calm s t → Calm r t
Calm-trans r s t a b = (omega arith, b.1 ∙ a.1, b.2 ∙ a.2)

step_down-Calm : (r : ReplicaState) (term : ℕ) → Calm r (step_down r term)
unfolding step_down
step_down-Calm r term = ground arith

replicate_current-Calm :
    (outcome : Wal.AppendOutcome) (now : ℕ) (r : ReplicaState) (req : ReplicateRequest)
    → Calm r (replicate_current outcome now r req).0
unfolding replicate_current
replicate_current-Calm outcome now r req =
    ground (arith, term-le-apply outcome r.sm (entry_of req) apply_with_wal)

pub replicate_fresh :
    (outcome : Wal.AppendOutcome) (now : ℕ) (r : ReplicaState) (req : ReplicateRequest)
    → r.term ≤ req.term
    → replicate outcome now r req ≡ replicate_current outcome now (step_down r req.term) req
unfolding replicate
replicate_fresh outcome now r req h = rw (le→ltb_false r.term req.term h)

pub replicate_stale :
    (outcome : Wal.AppendOutcome) (now : ℕ) (r : ReplicaState) (req : ReplicateRequest)
    → req.term < r.term
    → replicate outcome now r req ≡ (r, reply (record { success = false; term = r.term }))
unfolding replicate
replicate_stale outcome now r req h = rw (lt→ltb req.term r.term h)

pub replicate-Calm :
    (outcome : Wal.AppendOutcome) (now : ℕ) (r : ReplicaState) (req : ReplicateRequest)
    → Calm r (replicate outcome now r req).0
replicate-Calm outcome now r req = elim (Bool-cases (ltb req.term r.term)) [
  | inl stale ↦
      rw (replicate_stale outcome now r req (ltb→lt _ _ stale)) (le_refl r.term, refl, refl)
  | inr fresh ↦
      let s = step_down r req.term in
      rw (replicate_fresh outcome now r req (ltb_false→le _ _ fresh)) (
        Calm-trans r s (replicate_current outcome now s req).0 (step_down-Calm r req.term)
          (replicate_current-Calm outcome now s req))
]

pub leader_heartbeat-Calm :
    (now : ℕ) (r : ReplicaState) (req : LeaderHeartbeatRequest)
    → Calm r (leader_heartbeat now r req).0
unfolding leader_heartbeat
leader_heartbeat-Calm now r req = ground arith

pub force_recover-Calm : (now : ℕ) (r : ReplicaState) → Calm r (force_recover now r)
unfolding force_recover
force_recover-Calm now r = ground arith
