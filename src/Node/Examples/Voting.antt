-- ===== src/Node/Examples/Voting.antt =====
-- The theorems about votes in node/election.go and node/grpc.go at small replicas.
use doki.Prelude.{
  ℕ, String, ◌+◌, ◌*◌, ◌<◌, ◌≤◌, ◌≡◌, ◌≢◌, refl, arith, List, [], ◌∷◌, some, true, false, All,
  str_ne,
}
use doki.Node.StateMachine.{StateSnapshot}
use doki.Node.Replica.{ReplicaState, leader, follower}
use doki.Node.Rpc.{VoteRequest, request_vote}
use doki.Node.Election.{begin_election, Delivery, answer, after_votes, won, election_quorum}
use doki.Node.Election.Votes.{here, next, asked, request_vote_once}
use doki.Node.Election.Wins.{IsUpTo, grants, after_votes_won}
use doki.Node.Election.Safety.{
  Voter, granted, stood, for_neither, first_then_second, votes_first, votes_second,
  one_leader_per_term,
}
use doki.Node.Election.Revote.{install, revote_after_snapshot}
use doki.Node.Examples.{machine, replica, io_works}

abbrev voter : ReplicaState
voter = replica "n3" follower true (machine [] [] 1 4) ("n1" ∷ "n2" ∷ []) []

abbrev ask : ℕ → String → VoteRequest
ask term id = record { term = term; candidate_id = id; version = 4 }

first_granted : (request_vote 10 voter (ask 2 "n1")).1.vote_granted ≡ true
unfolding request_vote
first_granted = refl

-- The same candidate may ask again.
again_granted :
    (request_vote 12
      (request_vote 11 (request_vote 10 voter (ask 2 "n1")).0 (ask 2 "n2")).0
      (ask 2 "n1")).1.vote_granted
    ≡ true
unfolding request_vote
again_granted = refl

request_vote_once_example : (ask 2 "n1").candidate_id ≡ "n1"
request_vote_once_example =
    request_vote_once 10 12 voter
      (request_vote 11 (request_vote 10 voter (ask 2 "n1")).0 (ask 2 "n2")).0 (ask 2 "n1")
      (ask 2 "n1") (str_ne "n1" "" refl) first_granted (next here (asked 11 (ask 2 "n2") refl)) refl
      again_granted

abbrev standing : ReplicaState
standing = record (record voter { sm = machine [] [] 2 4 }) {
  voted_for = "n3";
  voted_for_term = 2;
  last_leader_contact = 20;
}

stands : begin_election 20 voter ≡ some (standing, ask 2 "n3")
unfolding begin_election
stands = refl

itself_granted : (request_vote 21 standing (ask 2 "n3")).1.vote_granted ≡ true
unfolding request_vote
itself_granted = refl

abbrev answers : List Delivery
answers = answer true 2 ∷ answer false 0 ∷ []

abbrev elected : ReplicaState
elected = record standing {
  role = leader;
  leader_id = "n3";
  is_ready = true;
  last_leader_contact = 22;
  election_count = 1;
}

wins : after_votes 22 standing 2 (election_quorum standing.peers) answers ≡ (elected, won)
unfolding after_votes election_quorum
wins = refl

after_votes_won_example :
    (standing.term ≡ 2)
    × (standing.role ≢ leader)
    × All (IsUpTo 2) answers
    × (3 < (grants answers + 1) * 2)
    × (elected.role ≡ leader)
    × (elected.term ≡ 2)
    × (elected.version ≡ 4)
after_votes_won_example = after_votes_won 22 standing elected 2 answers wins

-- "n3" stands, and grants its own request as well; "n1" grants it twice; "n2" does not answer.
abbrev itself : Voter 2 "n3" "n3"
itself =
    first_then_second (stood 20 (ask 2 "n3") (omega arith) stands refl refl) here
      (granted 21 (ask 2 "n3") refl refl itself_granted refl)

abbrev other_voter : ReplicaState
other_voter = replica "n1" follower true (machine [] [] 1 4) ("n2" ∷ "n3" ∷ []) []

other_granted : (request_vote 21 other_voter (ask 2 "n3")).1.vote_granted ≡ true
unfolding request_vote
other_granted = refl

other_granted_again :
    (request_vote 22 (request_vote 21 other_voter (ask 2 "n3")).0 (ask 2 "n3")).1.vote_granted
    ≡ true
unfolding request_vote
other_granted_again = refl

abbrev other_twice : Voter 2 "n3" "n3"
other_twice =
    first_then_second (granted 21 (ask 2 "n3") refl refl other_granted refl) here
      (granted 22 (ask 2 "n3") refl refl other_granted_again refl)

abbrev voters : List (Voter 2 "n3" "n3")
voters = itself ∷ other_twice ∷ for_neither ∷ []

enough_first : grants answers + 1 ≤ votes_first voters
unfolding grants votes_first
enough_first = omega arith

enough_second : grants answers + 1 ≤ votes_second voters
unfolding grants votes_second
enough_second = omega arith

one_leader_per_term_example : standing.node_id ≡ standing.node_id
one_leader_per_term_example =
    one_leader_per_term 2 22 22 standing elected standing elected answers answers voters
      (str_ne "n3" "" refl) (str_ne "n3" "" refl) refl refl wins wins enough_first enough_second

abbrev old_snapshot : StateSnapshot
old_snapshot = record { term = 1; version = 4; kv = [] }

revote_after_snapshot_example :
    (request_vote 12
      (install io_works (request_vote 10 voter (ask 2 "n1")).0 old_snapshot)
      (ask 2 "n2")).1.vote_granted
    ≡ true
revote_after_snapshot_example =
    revote_after_snapshot 10 12 io_works voter old_snapshot (ask 2 "n1") (ask 2 "n2") first_granted
      (omega arith) refl (omega arith)
