-- ===== src/Node/Recovery/Served.antt =====
-- One exchange of `Recover` in node/grpc.go with `doIncrementalRecovery` in node/recovery.go, at a
-- leader and a follower that is behind it.
use doki.Prelude.{
  ℕ, ◌+◌, ◌≤◌, ◌<◌, ◌≡◌, refl, sym, ap, ◌∙◌, arith, true, false, none, some, List, [], ◌∷◌, length,
  length-append, u64, max_u64,
}
use doki.ReplicationLog.{Entry, since}
use doki.ReplicationLog.Laws.{EndsAt}
use doki.ReplicationLog.Since.{since_complete, Split}
use doki.Wal
use doki.Node.DiskState.{Io}
use doki.Node.StateMachine
use doki.Node.StateMachine.{StateMachine}
use doki.Node.Replica.{ReplicaState, leader}
use doki.Node.Rpc.{reply}
use doki.Node.Rpc.Acks.{HasLog}
use doki.Node.Recovery.{
  incremental, respond_entries, entries_to_proto, recover, has_gap, apply_entries, recover_entries,
  recovered, do_incremental_recovery,
}
use doki.Node.Recovery.CatchUp.{
  perform, Rising, last_term, has_gap_none, apply_entries-Caught, some_inj,
}

recover_same :
    (l : ReplicaState) (v : ℕ)
    → l.role ≡ leader
    → l.version ≡ v
    → recover l v ≡ reply (respond_entries l.version [])
unfolding recover
recover_same l v lead h = ground (arith, lead)

recover_newer :
    (l : ReplicaState) (v : ℕ) (es : List Entry)
    → l.role ≡ leader
    → v < l.version
    → since l.sm.rep_log v ≡ some es
    → 0 < length es
    → recover l v ≡ reply (respond_entries l.version es)
unfolding recover StateMachine.entries_since
recover_newer l v [] lead h s some_fresh = absurd (omega arith)
recover_newer l v (e ∷ es) lead h s some_fresh = ground (arith, lead, s)

recover_entries_done :
    (f : ReplicaState) (sm : StateMachine) (version : ℕ) (io : Io) (es : List Entry)
    → has_gap f.version (u64 (f.version + 1)) (entries_to_proto es) ≡ false
    → apply_entries (λ _. Wal.durable) f.sm (entries_to_proto es) ≡ (sm, none)
    → do_incremental_recovery (λ _. Wal.durable) io f (reply (respond_entries version es))
      ≡ (recovered f sm, incremental)
unfolding do_incremental_recovery respond_entries recover_entries
recover_entries_done f sm version io es gap h = ground (arith, gap, h)

pub Split-length :
    (b v top : ℕ) (es fresh : List Entry)
    → Split b v es fresh
    → b + length es ≡ top
    → v + length fresh ≡ top
Split-length b v top es fresh s h =
    omega (arith, s.reaches, ap length s.splits, length-append s.old fresh)

served :
    (l : ReplicaState) (v : ℕ) (es : List Entry)
    → l.role ≡ leader
    → v + length es ≡ l.version
    → since l.sm.rep_log v ≡ some es
    → recover l v ≡ reply (respond_entries l.version es)
served l v [] lead h s = recover_same l v lead (omega arith)
served l v (e ∷ es) lead h s = recover_newer l v (e ∷ es) lead (omega arith) s (omega arith)

-- A follower that is not ahead of the leader, whose version the leader's log reaches down to, and
-- whose pairs become the leader's by the entries after that version, of terms that do not fall, has
-- after one exchange the leader's pairs and version, the term of the last entry, and a log that ends
-- at its version, and is ready, if its disk takes the entries. Both logs end at the versions of their
-- replicas before, and no version wraps around.
pub recover_reaches :
    (l f : ReplicaState) (io : Io) (es : List Entry) (k : EndsAt l.version l.sm.rep_log)
    → HasLog f
    → l.role ≡ leader
    → l.version < max_u64
    → k.base ≤ f.version
    → f.version ≤ l.version
    → since l.sm.rep_log f.version ≡ some es
    → Rising f.term es
    → perform f.sm.kv es ≡ some l.sm.kv
    → (s : ReplicaState) × (do_incremental_recovery (λ _. Wal.durable) io f (recover l f.version)
        ≡ (s, incremental))
      × (s.sm.kv ≡ l.sm.kv)
      × (s.version ≡ l.version)
      × (s.term ≡ last_term f.term es)
      × (s.is_ready ≡ true)
      × HasLog s
unfolding recovered
recover_reaches l f io es k log lead small low behind fresh up h =
    let (es', found, split) = since_complete l.sm.rep_log l.version f.version k small low behind in
    let same = some_inj _ _ (sym found ∙ fresh) in
    let long =
      Split-length k.base f.version l.version l.sm.rep_log.entries es (rw same at split) k.ends in
    let chain = rw same at (split.follows) in
    let (sm, done, c) = apply_entries-Caught f.sm es l.sm.kv log chain (omega arith) up h in
    (
      recovered f sm,
      ap (do_incremental_recovery (λ _. Wal.durable) io f) (served l f.version es lead long fresh)
          ∙ recover_entries_done f sm l.version io es
              (has_gap_none f.version f.version es chain (omega arith) (omega arith)) done,
      c.pairs,
      c.version ∙ long,
      c.term,
      refl,
      c.log,
    )
