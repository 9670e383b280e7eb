-- ===== src/Node/Election/Safety.antt =====
-- One leader for a term of a shard: the vote handler of node/grpc.go with the elections of
-- node/election.go, over all replicas of the shard.
use doki.Prelude.{
  ℕ, ◌+◌, ◌≤◌, ◌<◌, ◌≡◌, ◌≢◌, sym, ◌∙◌, arith, String, true, inl, inr, List, [], ◌∷◌, some, length,
  max_u64, Bool-cases, str_eq, eq_iff, str_ne,
}
use doki.Node.Replica.{ReplicaState}
use doki.Node.Rpc.{VoteRequest, request_vote}
use doki.Node.Election.{Delivery, begin_election, after_votes, won, election_quorum}
use doki.Node.Election.Votes.{Voted, Moves, Moves-Voted, request_vote-Voted, vote_agrees, self_vote}
use doki.Node.Election.Wins.{grants, after_votes_won}

-- A replica casts its vote of term `n` for `c`: it grants a request, or stands itself.
pub data Casts (n : ℕ) (c : String) (r s : ReplicaState) : Type 0 where
  granted :
      (now : ℕ) (req : VoteRequest)
      → req.term ≡ n
      → req.candidate_id ≡ c
      → (request_vote now r req).1.vote_granted ≡ true
      → s ≡ (request_vote now r req).0
      → Casts n c r s
  stood :
      (now : ℕ) (req : VoteRequest)
      → r.term < max_u64
      → begin_election now r ≡ some (s, req)
      → req.term ≡ n
      → r.node_id ≡ c
      → Casts n c r s

Casts-Voted : (n : ℕ) (c : String) (r s : ReplicaState) → Casts n c r s → Voted n c s
Casts-Voted n c r s (granted now req at for ok e) =
    rw (e, sym at, sym for) (request_vote-Voted now r req ok)
Casts-Voted n c r s (stood now req small e at self) =
    rw (sym at, sym self) (self_vote now r s req e)

standing_term :
    (now : ℕ) (r s : ReplicaState) (req : VoteRequest)
    → r.term < max_u64
    → begin_election now r ≡ some (s, req)
    → req.term ≡ r.term + 1
unfolding begin_election
standing_term now r s req small e = ground arith

-- A replica that has voted in the term casts no vote of that term for another.
Voted-Casts :
    (n : ℕ) (c d : String) (r s : ReplicaState) → c ≢ "" → Voted n c r → Casts n d r s → d ≡ c
Voted-Casts n c d r s named v (granted now req at for ok e) =
    sym for ∙ vote_agrees n c now r req named v at ok
Voted-Casts n c d r s named v (stood now req small e at self) =
    let later = standing_term now r s req small e in
    elim v [
      | inl past ↦ absurd (omega (arith, past, later, at))
      | inr (same, _, _) ↦ absurd (omega (arith, same, later, at))
    ]

cast_twice :
    (n : ℕ) (c d : String) (r s t u : ReplicaState)
    → c ≢ ""
    → Casts n c r s
    → Moves s t
    → Casts n d t u
    → d ≡ c
cast_twice n c d r s t u named first m second =
    Voted-Casts n c d t u named (Moves-Voted n c named m (Casts-Voted n c r s first)) second

-- What a replica of the shard has cast in term `n`: no vote for either candidate, a vote for one, or
-- one for each, in either order, with any handlers, elections and heartbeats in between.
pub data Voter (n : ℕ) (a b : String) : Type 0 where
  for_neither : Voter n a b
  for_first : {r s : ReplicaState} → Casts n a r s → Voter n a b
  for_second : {r s : ReplicaState} → Casts n b r s → Voter n a b
  first_then_second :
      {r s t u : ReplicaState} → Casts n a r s → Moves s t → Casts n b t u → Voter n a b
  second_then_first :
      {r s t u : ReplicaState} → Casts n b r s → Moves s t → Casts n a t u → Voter n a b

module _ {n : ℕ} {a b : String} where
  -- The replicas that have cast a vote for the first candidate.
  unfoldable pub votes_first : List (Voter n a b) → ℕ
  votes_first [] = 0
  votes_first (for_neither ∷ vs) = votes_first vs
  votes_first (for_first c ∷ vs) = let k = votes_first vs in k + 1
  votes_first (for_second c ∷ vs) = votes_first vs
  votes_first (first_then_second c m d ∷ vs) = let k = votes_first vs in k + 1
  votes_first (second_then_first c m d ∷ vs) = let k = votes_first vs in k + 1

  -- The replicas that have cast a vote for the second candidate.
  unfoldable pub votes_second : List (Voter n a b) → ℕ
  votes_second [] = 0
  votes_second (for_neither ∷ vs) = votes_second vs
  votes_second (for_first c ∷ vs) = votes_second vs
  votes_second (for_second c ∷ vs) = let k = votes_second vs in k + 1
  votes_second (first_then_second c m d ∷ vs) = let k = votes_second vs in k + 1
  votes_second (second_then_first c m d ∷ vs) = let k = votes_second vs in k + 1

  votes_disjoint :
      (vs : List (Voter n a b))
      → a ≢ ""
      → b ≢ ""
      → a ≢ b
      → votes_first vs + votes_second vs ≤ length vs
  unfolding votes_first votes_second
  votes_disjoint [] named other ne = omega arith
  votes_disjoint (for_neither ∷ vs) named other ne = omega (arith, votes_disjoint vs named other ne)
  votes_disjoint (for_first c ∷ vs) named other ne = omega (arith, votes_disjoint vs named other ne)
  votes_disjoint (for_second c ∷ vs) named other ne =
      omega (arith, votes_disjoint vs named other ne)
  votes_disjoint (first_then_second {r} {s} {t} {u} c m d ∷ vs) named other ne =
      absurd (ne (sym (cast_twice n a b r s t u named c m d)))
  votes_disjoint (second_then_first {r} {s} {t} {u} c m d ∷ vs) named other ne =
      absurd (ne (cast_twice n b a r s t u other c m d))

-- Two candidates that win an election of the same term, by no more votes than replicas of the shard
-- have cast for them, are the same replica, if both count as many replicas as the shard has, both have
-- names, no term wraps around, and no replica restarts or installs a snapshot between its votes.
pub one_leader_per_term :
    (n now later : ℕ) (r s t u : ReplicaState) (ds es : List Delivery)
    (voters : List (Voter n r.node_id t.node_id))
    → r.node_id ≢ ""
    → t.node_id ≢ ""
    → length r.peers + 1 ≡ length voters
    → length t.peers + 1 ≡ length voters
    → after_votes now r n (election_quorum r.peers) ds ≡ (s, won)
    → after_votes later t n (election_quorum t.peers) es ≡ (u, won)
    → grants ds + 1 ≤ votes_first voters
    → grants es + 1 ≤ votes_second voters
    → r.node_id ≡ t.node_id
one_leader_per_term n now later r s t u ds es voters named other ours theirs wins too first second =
    elim (Bool-cases (str_eq r.node_id t.node_id)) [
      | inl same ↦ (eq_iff r.node_id t.node_id).0 same
      | inr differ ↦
          let w = after_votes_won now r s n ds wins in
          let v = after_votes_won later t u n es too in
          let few = votes_disjoint voters named other (str_ne r.node_id t.node_id differ) in
          absurd (omega (arith, w.3, v.3, few, ours, theirs, first, second))
    ]
