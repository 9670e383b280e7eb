-- ===== src/Node/Election/Votes.antt =====
-- A replica grants at most one vote in a term: node/election.go and the vote handler of node/grpc.go.
use doki.Prelude.{ℕ, ◌<◌, String, ◌≡◌, ◌≢◌, arith, true, ◌⊎◌, some, max_u64, eq_iff}
use doki.Wal
use doki.Node.Replica.{ReplicaState}
use doki.Node.Rpc.{
  VoteRequest, ReplicateRequest, LeaderHeartbeatRequest, replicate, request_vote, leader_heartbeat,
  force_recover,
}
use doki.Node.Rpc.Laws.{Calm, replicate-Calm, leader_heartbeat-Calm, force_recover-Calm}
use doki.Node.Election.{begin_election, conclude, step_down_to, heartbeat_answer}

-- A replica that has voted for `c` in term `n`: it is past the term, or remembers the vote.
abbrev pub Voted : ℕ → String → ReplicaState → Type 0
Voted n c r = (n < r.term) ⊎ ((r.term ≡ n) × (r.voted_for_term ≡ n) × (r.voted_for ≡ c))

-- A granted vote is one for the request's candidate, in the request's term.
pub request_vote-Voted :
    (now : ℕ) (r : ReplicaState) (req : VoteRequest)
    → (request_vote now r req).1.vote_granted ≡ true
    → Voted req.term req.candidate_id (request_vote now r req).0
unfolding request_vote
request_vote-Voted now r req h = ground arith

vote_keeps :
    (n : ℕ) (c : String) (now : ℕ) (r : ReplicaState) (req : VoteRequest)
    → c ≢ ""
    → Voted n c r
    → Voted n c (request_vote now r req).0
unfolding request_vote
vote_keeps n c now r req named v =
    ground (arith, eq_iff r.voted_for "", eq_iff r.voted_for req.candidate_id)

pub vote_agrees :
    (n : ℕ) (c : String) (now : ℕ) (r : ReplicaState) (req : VoteRequest)
    → c ≢ ""
    → Voted n c r
    → req.term ≡ n
    → (request_vote now r req).1.vote_granted ≡ true
    → req.candidate_id ≡ c
unfolding request_vote
vote_agrees n c now r req named v at granted =
    ground (arith, eq_iff r.voted_for "", eq_iff r.voted_for req.candidate_id)

Calm-Voted : (n : ℕ) (c : String) (r s : ReplicaState) → Calm r s → Voted n c r → Voted n c s
Calm-Voted n c r s k v = ground arith

campaign_keeps :
    (n : ℕ) (c : String) (now : ℕ) (r s : ReplicaState) (req : VoteRequest)
    → r.term < max_u64
    → begin_election now r ≡ some (s, req)
    → Voted n c r
    → Voted n c s
unfolding begin_election
campaign_keeps n c now r s req small e v = ground arith

conclude-Calm :
    (now : ℕ) (r : ReplicaState) (term votes quorum : ℕ)
    → Calm r (conclude now r term votes quorum).0
unfolding conclude
conclude-Calm now r term votes quorum = ground arith

step_down_to-Calm : (r : ReplicaState) (term : ℕ) → Calm r (step_down_to r term)
unfolding step_down_to
step_down_to-Calm r term = ground arith

heartbeat_answer-Calm :
    (now : ℕ) (r : ReplicaState) (peer : String) (term peer_term : ℕ)
    → Calm r (heartbeat_answer now r peer term peer_term)
unfolding heartbeat_answer
heartbeat_answer-Calm now r peer term peer_term = ground arith

-- What may happen to a replica between two votes: its handlers, its own elections and heartbeats,
-- and any change that leaves the vote alone and does not lower the term. Installing a snapshot is
-- left out: it can lower the term (Node/Election/Revote).
pub data Move (r s : ReplicaState) : Type 0 where
  replicated :
      (outcome : Wal.AppendOutcome) (now : ℕ) (req : ReplicateRequest)
      → s ≡ (replicate outcome now r req).0
      → Move r s
  asked : (now : ℕ) (req : VoteRequest) → s ≡ (request_vote now r req).0 → Move r s
  heard : (now : ℕ) (req : LeaderHeartbeatRequest) → s ≡ (leader_heartbeat now r req).0 → Move r s
  forced : (now : ℕ) → s ≡ force_recover now r → Move r s
  campaigned :
      (now : ℕ) (req : VoteRequest)
      → r.term < max_u64
      → begin_election now r ≡ some (s, req)
      → Move r s
  concluded : (now term votes quorum : ℕ) → s ≡ (conclude now r term votes quorum).0 → Move r s
  stepped_down : (term : ℕ) → s ≡ step_down_to r term → Move r s
  answered :
      (now : ℕ) (peer : String) (term peer_term : ℕ)
      → s ≡ heartbeat_answer now r peer term peer_term
      → Move r s
  calm : Calm r s → Move r s

pub data Moves (r : ReplicaState) : ReplicaState → Type 0 where
  here : Moves r r
  next : {s t : ReplicaState} → Moves r s → Move s t → Moves r t

module _ (n : ℕ) (c : String) (named : c ≢ "") where
  Calm-to : (r s t : ReplicaState) → s ≡ t → Calm r t → Voted n c r → Voted n c s
  Calm-to r s t e k v = rw e (Calm-Voted n c r t k v)

  Move-Voted : {r s : ReplicaState} → Move r s → Voted n c r → Voted n c s
  Move-Voted {r} {s} (replicated o now req e) v = Calm-to r s _ e (replicate-Calm o now r req) v
  Move-Voted {r} {s} (asked now req e) v = rw e (vote_keeps n c now r req named v)
  Move-Voted {r} {s} (heard now req e) v = Calm-to r s _ e (leader_heartbeat-Calm now r req) v
  Move-Voted {r} {s} (forced now e) v = Calm-to r s _ e (force_recover-Calm now r) v
  Move-Voted {r} {s} (campaigned now req small e) v = campaign_keeps n c now r s req small e v
  Move-Voted {r} {s} (concluded now t b q e) v = Calm-to r s _ e (conclude-Calm now r t b q) v
  Move-Voted {r} {s} (stepped_down t e) v = Calm-to r s _ e (step_down_to-Calm r t) v
  Move-Voted {r} {s} (answered now p t u e) v =
      Calm-to r s _ e (heartbeat_answer-Calm now r p t u) v
  Move-Voted {r} {s} (calm k) v = Calm-Voted n c r s k v

  pub Moves-Voted : {r s : ReplicaState} → Moves r s → Voted n c r → Voted n c s
  Moves-Voted here v = v
  Moves-Voted (next m st) v = Move-Voted st (Moves-Voted m v)

-- A replica that has granted a vote in a term to a candidate with a name grants no later vote in
-- that term to another candidate, whatever handlers, elections and heartbeats come in between, as
-- long as no term wraps around, no snapshot is installed and the replica does not restart.
pub request_vote_once :
    (now later : ℕ) (r s : ReplicaState) (first second : VoteRequest)
    → first.candidate_id ≢ ""
    → (request_vote now r first).1.vote_granted ≡ true
    → Moves (request_vote now r first).0 s
    → second.term ≡ first.term
    → (request_vote later s second).1.vote_granted ≡ true
    → second.candidate_id ≡ first.candidate_id
request_vote_once now later r s first second named granted m at again =
    vote_agrees first.term first.candidate_id later s second named
      (Moves-Voted first.term first.candidate_id named m (request_vote-Voted now r first granted))
      at again

pub self_vote :
    (now : ℕ) (r s : ReplicaState) (req : VoteRequest)
    → begin_election now r ≡ some (s, req)
    → Voted req.term r.node_id s
unfolding begin_election
self_vote now r s req e = ground arith
