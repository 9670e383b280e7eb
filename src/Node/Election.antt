-- ===== src/Node/Election.antt =====
-- node/election.go: the election timer, one election attempt, and the leader's heartbeats.
-- The source releases the replica's lock while it waits for peers: `begin_election`, the handling of
-- each answer and `conclude` are the parts that hold it, and other handlers may run in between.
-- What a peer answers is data here; an RPC that fails answers `(false, 0)`, as `sendVoteRequest` does.
pub mod Votes
pub mod Wins
pub mod Safety
pub mod Revote
use doki.Prelude.{
  ℕ, ◌+◌, ◌-◌, ◌/◌, String, Bool, true, false, List, [], ◌∷◌, Option, none, some, ◌==◌, ltb, leb,
  u64, not, ◌&&◌, ◌||◌, if◌then◌else◌, length,
}
use doki.Storage
use doki.Storage.{Pairs, lookup, with_pair}
use doki.Node.Replica.{ReplicaState, Role, leader, follower, with_term}
use doki.Node.Rpc.{VoteRequest}

pub data TimerAction : Type 0 where
  wait : TimerAction
  seed : TimerAction  -- `LastLeaderContact` is set to the present
  elect : TimerAction

unfoldable pub is_leader : Role → Bool
is_leader leader = true
is_leader _ = false

-- One tick of `runElectionTimer`, for a replica whose timeout is not 0.
unfoldable pub election_tick : ℕ → ReplicaState → TimerAction
unfolding is_leader
election_tick now r =
    if is_leader r.role
    then wait
    else if r.last_leader_contact == 0
    then seed
    else if ltb (now - r.last_leader_contact) r.election_timeout
    then wait
    else elect

-- The peers whose address is known.
unfoldable pub addresses_of : Pairs String → List String → Pairs String
addresses_of addresses [] = []
addresses_of addresses (id ∷ ids) =
    let rest = addresses_of addresses ids in
    elim (lookup addresses id) [ none ↦ rest | some addr ↦ with_pair rest id addr ]

-- The first part of `startElection`; `none` if the replica leads already.
unfoldable pub begin_election : ℕ → ReplicaState → Option (ReplicaState × VoteRequest)
unfolding is_leader
begin_election now r =
    let term = u64 (r.term + 1) in
    if is_leader r.role
    then none
    else some (
      record (with_term r term) {
        voted_for = r.node_id;
        voted_for_term = term;
        last_leader_contact = now;
      },
      record { term = term; candidate_id = r.node_id; version = r.version },
    )

unfoldable pub election_quorum : List String → ℕ
election_quorum peers = (length peers + 1) / 2 + 1

-- What the channel delivers: a peer's answer, or the end of the context.
pub data Delivery : Type 0 where
  answer : Bool → ℕ → Delivery
  done : Delivery

pub data Tally : Type 0 where
  counted : ℕ → Tally
  higher_term : ℕ → Tally
  cancelled : Tally

-- The loop that collects the results.
unfoldable pub collect : ℕ → ℕ → List Delivery → Tally
collect candidate_term votes [] = counted votes
collect candidate_term votes (done ∷ rest) = cancelled
collect candidate_term votes (answer granted term ∷ rest) =
    let more = collect candidate_term (if granted then votes + 1 else votes) rest in
    if ltb candidate_term term then higher_term term else more

-- A peer has answered with a higher term.
unfoldable pub step_down_to : ReplicaState → ℕ → ReplicaState
step_down_to r term = record (with_term r (if ltb r.term term then term else r.term)) {
  role = follower;
}

pub data Verdict : Type 0 where
  superseded lost won : Verdict

-- The part behind the final term check. The coordinator is told of a victory.
unfoldable pub conclude : ℕ → ReplicaState → ℕ → ℕ → ℕ → ReplicaState × Verdict
unfolding is_leader
conclude now r candidate_term votes quorum =
    if not (r.term == candidate_term) || is_leader r.role
    then (r, superseded)
    else if ltb votes quorum
    then (record r { election_count = r.election_count + 1 }, lost)
    else (
      record r {
        role = leader;
        leader_id = r.node_id;
        is_ready = true;
        last_leader_contact = now;
        election_count = r.election_count + 1;
      },
      won,
    )

-- The end of an election at the replica as the answers find it.
unfoldable pub after_votes : ℕ → ReplicaState → ℕ → ℕ → List Delivery → ReplicaState × Verdict
unfolding collect step_down_to conclude
after_votes now r candidate_term quorum deliveries = elim (collect candidate_term 1 deliveries) [
  | counted votes ↦ conclude now r candidate_term votes quorum
  | higher_term term ↦ (step_down_to r term, superseded)
  | cancelled ↦ (r, superseded)
]

-- The answer of a peer to a heartbeat that the replica sent in `term`; 0 is no answer.
unfoldable pub heartbeat_answer : ℕ → ReplicaState → String → ℕ → ℕ → ReplicaState
unfolding is_leader
heartbeat_answer now r peer_id term peer_term =
    if peer_term == 0
    then r
    else if ltb term peer_term
    then (let s = with_term r (if ltb r.term peer_term then peer_term else r.term) in
        record s { role = if is_leader r.role then follower else r.role })
    else record r { peer_last_contact = with_pair r.peer_last_contact peer_id now }
