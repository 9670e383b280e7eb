-- ===== src/Node/Examples/Catching.antt =====
-- The theorems about recovery in node/recovery.go and node/grpc.go at small replicas.
use doki.Prelude.{String, ◌≡◌, ◌⊎◌, ◌≢◌, refl, arith, [], ◌∷◌, none, true, false, inl}
use doki.Storage
use doki.Storage.{Pairs, lookup}
use doki.ReplicationLog.Laws.{EndsAt}
use doki.Wal
use doki.Node.StateMachine
use doki.Node.StateMachine.{StateMachine, apply_with_wal}
use doki.Node.Replica.{ReplicaState, leader, follower}
use doki.Node.Rpc.Acks.{HasLog}
use doki.Node.Recovery.{recover, do_incremental_recovery, incremental, snapshot}
use doki.Node.Recovery.CatchUp.{last_term}
use doki.Node.Recovery.History.{Applies, none_left, applied, recover_catches_up}
use doki.Node.Recovery.Copied.{recover_installs, recover_same_version_keeps}
use doki.Node.Examples.{machine, replica, io_works, put_a}

abbrev lead : ReplicaState
lead =
    replica "n1" leader true (machine (("a", "y") ∷ []) (put_a 1 4 "x" ∷ put_a 2 5 "y" ∷ []) 2 5)
      ("n2" ∷ []) []

abbrev behind : ReplicaState
behind = replica "n2" follower false (machine (("a", "x") ∷ []) [] 1 4) ("n1" ∷ []) []

abbrev lead_log : EndsAt 5 lead.sm.rep_log
lead_log = record {
  base = 3;
  chain = (refl, (refl, tt));
  ends = refl;
  room = omega arith;
  bounded = omega arith;
}

behind-HasLog : HasLog behind
behind-HasLog = record {
  base = 4;
  chain = tt;
  ends = refl;
  room = omega arith;
  bounded = omega arith;
}

-- The leader before its last write.
abbrev earlier : StateMachine
earlier = machine (("a", "x") ∷ []) (put_a 1 4 "x" ∷ []) 1 4

one_applied :
    StateMachine.apply Wal.durable earlier (put_a 2 5 "y") apply_with_wal ≡ (lead.sm, none)
unfolding StateMachine.apply Storage.with_pair Storage.without
one_applied = refl

since_then : Applies earlier (put_a 2 5 "y" ∷ []) lead.sm
since_then = applied Wal.durable apply_with_wal one_applied none_left

recover_catches_up_example :
    (s : ReplicaState) × (do_incremental_recovery
        (λ _. Wal.durable)
        io_works
        behind
        (recover lead 4)
      ≡ (s, incremental))
    × (s.sm.kv ≡ lead.sm.kv)
    × (s.version ≡ 5)
    × (s.term ≡ last_term 1 (put_a 2 5 "y" ∷ []))
    × (s.is_ready ≡ true)
    × HasLog s
recover_catches_up_example =
    recover_catches_up lead behind io_works earlier (put_a 2 5 "y" ∷ []) lead_log since_then refl
      refl (omega arith) behind-HasLog refl (omega arith) (omega arith)

abbrev ahead : ReplicaState
ahead = replica "n2" follower false (machine (("a", "z") ∷ []) [] 2 6) ("n1" ∷ []) []

none_here : lookup {V = String} [] "a" ≡ none
unfolding lookup
none_here = refl

recover_installs_example :
    let s = do_incremental_recovery (λ _. Wal.durable) io_works ahead (recover lead 6) in
    (s.0.version ≡ 5)
    × (s.0.term ≡ 2)
    × (lookup s.0.sm.kv.pairs "a" ≡ lookup lead.sm.kv.pairs "a")
    × ((s.1 ≢ snapshot) ⊎ (s.0.is_ready ≡ true))
recover_installs_example =
    recover_installs (λ _. Wal.durable) io_works lead ahead "a" refl (none_here, tt)
      (inl (omega arith))

abbrev diverged : ReplicaState
diverged = replica "n2" follower false (machine (("a", "z") ∷ []) [] 2 5) ("n1" ∷ []) []

recover_same_version_keeps_example :
    let s = do_incremental_recovery (λ _. Wal.durable) io_works diverged (recover lead 5) in
    (s.1 ≡ incremental) × (s.0.is_ready ≡ true) × (s.0.sm.kv ≡ diverged.sm.kv)
recover_same_version_keeps_example =
    recover_same_version_keeps (λ _. Wal.durable) io_works lead diverged refl refl
