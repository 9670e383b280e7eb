-- ===== src/Node/Recovery/Copied.antt =====
-- A follower that installs the leader's snapshot: `Recover` of node/grpc.go with node/recovery.go.
use doki.Prelude.{
  ℕ, ◌<◌, String, ◌≡◌, ◌≢◌, refl, ap, ◌∙◌, arith, true, inl, inr, ◌⊎◌, Option, none, some, [], ◌∷◌,
  eq_iff,
}
use doki.Storage
use doki.Storage.{Kv, lookup, without, with_pair}
use doki.Storage.Laws.{lookup-with_pair, IsKeyed}
use doki.ReplicationLog.{since}
use doki.Wal
use doki.Node.DiskState.{Io}
use doki.Node.StateMachine
use doki.Node.StateMachine.{StateMachine, StateSnapshot, snapshot_persist}
use doki.Node.Replica.{ReplicaState, leader}
use doki.Node.Rpc.{reply}
use doki.Node.Recovery.{
  snapshot, incremental, recover_entries, entries_to_proto, apply_entries, respond_snapshot,
  respond_entries, kv_to_proto, kv_from_proto, pairs_onto, recover, recover_snapshot,
  after_snapshot, recovered, do_incremental_recovery,
}

pairs_onto-lookup :
    (acc kv : Kv) (j : String)
    → IsKeyed kv
    → lookup (pairs_onto acc kv) j ≡ elim (lookup kv j) [ none ↦ lookup acc j | some v ↦ some v ]
unfolding pairs_onto lookup
pairs_onto-lookup acc [] j u = refl
pairs_onto-lookup acc ((k, v) ∷ kv) j u =
    let h = pairs_onto-lookup (with_pair acc k v) kv j u.1 in
    let a = lookup-with_pair acc k v j in let n = u.0 in ground (arith, h, a, n, eq_iff k j)

-- A map with one pair for each key arrives as it was sent.
pub kv_from_proto-kv_to_proto :
    (kv : Kv) (j : String) → IsKeyed kv → lookup (kv_from_proto (kv_to_proto kv)) j ≡ lookup kv j
unfolding kv_from_proto kv_to_proto lookup
kv_from_proto-kv_to_proto kv j u = ground (pairs_onto-lookup [] kv j u, arith)

recover_ahead :
    (l : ReplicaState) (v : ℕ)
    → l.role ≡ leader
    → l.version < v
    → recover l v ≡ reply (respond_snapshot (StateMachine.snapshot l.sm))
unfolding recover StateMachine.snapshot
recover_ahead l v lead h = ground (arith, lead)

recover_evicted :
    (l : ReplicaState) (v : ℕ)
    → l.role ≡ leader
    → v < l.version
    → since l.sm.rep_log v ≡ none
    → recover l v ≡ reply (respond_snapshot (StateMachine.snapshot l.sm))
unfolding recover StateMachine.snapshot StateMachine.entries_since
recover_evicted l v lead h s = ground (arith, lead, s)

snapshot_fields :
    (sm : StateMachine)
    → ((StateMachine.snapshot sm).term ≡ sm.term)
      × ((StateMachine.snapshot sm).version ≡ sm.version)
      × ((StateMachine.snapshot sm).kv ≡ sm.kv.pairs)
unfolding StateMachine.snapshot
snapshot_fields sm = (refl, refl, refl)

-- A replica that holds the pairs, the version and the term of a snapshot.
abbrev pub Holds : StateSnapshot → ReplicaState → Type 0
Holds snap s =
    (s.version ≡ snap.version)
    × (s.term ≡ snap.term)
    × (s.sm.kv.pairs ≡ kv_from_proto (kv_to_proto snap.kv))

apply_snapshot_installs :
    (io : Io) (sm : StateMachine) (snap : StateSnapshot)
    → let t = (StateMachine.apply_snapshot io sm snap snapshot_persist).0 in
      (t.version ≡ snap.version) × (t.term ≡ snap.term) × (t.kv.pairs ≡ snap.kv)
unfolding StateMachine.apply_snapshot Storage.apply_snapshot
apply_snapshot_installs io sm snap = (refl, refl, refl)

-- The snapshot as it arrives.
abbrev arrived : StateSnapshot → StateSnapshot
arrived snap = record {
  term = snap.term;
  version = snap.version;
  kv = kv_from_proto (kv_to_proto snap.kv);
}

after_snapshot_lem :
    (r : ReplicaState) (res : StateMachine × Option StateMachine.Err)
    → ((after_snapshot r res).0.sm ≡ res.0)
      × (((after_snapshot r res).1 ≢ snapshot) ⊎ ((after_snapshot r res).0.is_ready ≡ true))
unfolding after_snapshot recovered
after_snapshot_lem r (sm, none) = (refl, inr refl)
after_snapshot_lem r (sm, some x) = (refl, inl (λ e. ground arith))

to_after_snapshot :
    (outcome : ℕ → Wal.AppendOutcome) (io : Io) (f : ReplicaState) (snap : StateSnapshot)
    → do_incremental_recovery outcome io f (reply (respond_snapshot snap))
      ≡ after_snapshot f (StateMachine.apply_snapshot io f.sm (arrived snap) snapshot_persist)
unfolding do_incremental_recovery respond_snapshot recover_snapshot
to_after_snapshot outcome io f snap = refl

installed :
    (outcome : ℕ → Wal.AppendOutcome) (io : Io) (f : ReplicaState) (snap : StateSnapshot)
    → let s = do_incremental_recovery outcome io f (reply (respond_snapshot snap)) in
      Holds snap s.0 × ((s.1 ≢ snapshot) ⊎ (s.0.is_ready ≡ true))
installed outcome io f snap =
    let res = StateMachine.apply_snapshot io f.sm (arrived snap) snapshot_persist in
    let k = apply_snapshot_installs io f.sm (arrived snap) in
    let a = after_snapshot_lem f res in rw (to_after_snapshot outcome io f snap) (rw (a.0) k, a.1)

-- A follower that is ahead of the leader, or that lacks an entry which the leader's log has evicted,
-- holds after one exchange the leader's version and term, and under every key what the leader holds,
-- whether or not its disk takes the snapshot; and it is ready if the recovery reports success. The
-- leader's pairs have one pair for each key.
pub recover_installs :
    (outcome : ℕ → Wal.AppendOutcome) (io : Io) (l f : ReplicaState) (key : String)
    → l.role ≡ leader
    → IsKeyed l.sm.kv.pairs
    → (l.version < f.version) ⊎ ((f.version < l.version) × (since l.sm.rep_log f.version ≡ none))
    → let s = do_incremental_recovery outcome io f (recover l f.version) in
      (s.0.version ≡ l.version)
      × (s.0.term ≡ l.term)
      × (lookup s.0.sm.kv.pairs key ≡ lookup l.sm.kv.pairs key)
      × ((s.1 ≢ snapshot) ⊎ (s.0.is_ready ≡ true))
recover_installs outcome io l f key lead keyed away =
    let asked : recover l f.version ≡ reply (respond_snapshot (StateMachine.snapshot l.sm)) =
      elim away [
        | inl ahead ↦ recover_ahead l f.version lead ahead
        | inr (behind, gone) ↦ recover_evicted l f.version lead behind gone
      ] in
    let (h, ready) = installed outcome io f (StateMachine.snapshot l.sm) in
    let e = snapshot_fields l.sm in
    rw asked (
      h.0 ∙ e.1,
      h.1 ∙ e.0,
      ap (λ m. lookup m key) h.2
          ∙ ap (λ m. lookup (kv_from_proto (kv_to_proto m)) key) e.2
          ∙ kv_from_proto-kv_to_proto l.sm.kv.pairs key keyed,
      ready,
    )

-- A follower at the leader's version is declared recovered, and keeps its own pairs, whatever
-- they are.
pub recover_same_version_keeps :
    (outcome : ℕ → Wal.AppendOutcome) (io : Io) (l f : ReplicaState)
    → l.role ≡ leader
    → f.version ≡ l.version
    → let s = do_incremental_recovery outcome io f (recover l f.version) in
      (s.1 ≡ incremental) × (s.0.is_ready ≡ true) × (s.0.sm.kv ≡ f.sm.kv)
unfolding do_incremental_recovery recover recover_entries respond_entries recovered entries_to_proto
    apply_entries
recover_same_version_keeps outcome io l f lead same = ground (arith, lead, same)
