-- ===== src/Node/Election/Revote.antt =====
-- Installing a snapshot can make a replica vote twice in a term: node/statemachine.go against the
-- vote handler of node/grpc.go.
use doki.Prelude.{ℕ, ◌≤◌, ◌<◌, ◌≡◌, refl, arith, true}
use doki.Node.DiskState.{Io}
use doki.Node.StateMachine
use doki.Node.StateMachine.{StateMachine, StateSnapshot, snapshot_persist}
use doki.Node.Replica.{ReplicaState}
use doki.Node.Rpc.{VoteRequest, request_vote}

-- `replica.SM.ApplySnapshot` as recovery calls it.
abbrev pub install : Io → ReplicaState → StateSnapshot → ReplicaState
install io r snap = record r { sm = (StateMachine.apply_snapshot io r.sm snap snapshot_persist).0 }

install_lem :
    (io : Io) (r : ReplicaState) (snap : StateSnapshot)
    → ((install io r snap).term ≡ snap.term)
      × ((install io r snap).version ≡ snap.version)
      × ((install io r snap).voted_for ≡ r.voted_for)
unfolding StateMachine.apply_snapshot
install_lem io r snap = (refl, refl, refl)

-- A request of a higher term, at least as far as the replica, is granted.
higher_granted :
    (now : ℕ) (r : ReplicaState) (req : VoteRequest)
    → r.term < req.term
    → r.version ≤ req.version
    → (request_vote now r req).1.vote_granted ≡ true
unfolding request_vote
higher_granted now r req h k = ground arith

-- After a vote in a term, the snapshot of a lower term, which recovery installs if the leader is of
-- that term, makes the replica grant another vote in the same term, to any candidate whose version
-- is not below the snapshot's.
pub revote_after_snapshot :
    (now later : ℕ) (io : Io) (r : ReplicaState) (snap : StateSnapshot) (first second : VoteRequest)
    → (request_vote now r first).1.vote_granted ≡ true
    → snap.term < first.term
    → second.term ≡ first.term
    → snap.version ≤ second.version
    → let s = install io (request_vote now r first).0 snap in
      (request_vote later s second).1.vote_granted ≡ true
revote_after_snapshot now later io r snap first second granted lower same far =
    let s = install io (request_vote now r first).0 snap in
    let k = install_lem io (request_vote now r first).0 snap in
    higher_granted later s second (omega (arith, k.0)) (omega (arith, k.1))
