-- ===== src/Node/Election/Wins.antt =====
-- When an election of node/election.go is won.
use doki.Prelude.{
  ℕ, ◌+◌, ◌*◌, ◌≤◌, ◌<◌, ◌≡◌, ◌≢◌, arith, true, false, List, [], ◌∷◌, length, ltb, inl, inr,
  Bool-cases, ltb_false→le, All,
}
use doki.Node.Replica.{ReplicaState, leader}
use doki.Node.Election.{
  Delivery, answer, done, counted, collect, conclude, after_votes, won, election_quorum,
}

-- The votes among the answers.
unfoldable pub grants : List Delivery → ℕ
grants [] = 0
grants (answer true term ∷ rest) = let n = grants rest in n + 1
grants (answer false term ∷ rest) = grants rest
grants (done ∷ rest) = grants rest

-- An answer whose term is not above `term`.
abbrev pub IsUpTo : ℕ → Delivery → Type 0
IsUpTo term (answer granted t) = t ≤ term
IsUpTo term done = ⊥

collect_counted :
    (candidate_term votes : ℕ) (ds : List Delivery) (n : ℕ)
    → collect candidate_term votes ds ≡ counted n
    → (n ≡ votes + grants ds) × All (IsUpTo candidate_term) ds
unfolding collect grants
collect_counted candidate_term votes [] n h = (ground arith, tt)
collect_counted candidate_term votes (done ∷ rest) n h = ground arith
collect_counted candidate_term votes (answer true term ∷ rest) n h =
    elim (Bool-cases (ltb candidate_term term)) [
      | inl higher ↦ cc (rw higher at h)
      | inr fine ↦
          let k = collect_counted candidate_term (votes + 1) rest n (rw fine at h) in
          (omega (arith, k.0), (ltb_false→le _ _ fine, k.1))
    ]
collect_counted candidate_term votes (answer false term ∷ rest) n h =
    elim (Bool-cases (ltb candidate_term term)) [
      | inl higher ↦ cc (rw higher at h)
      | inr fine ↦
          let k = collect_counted candidate_term votes rest n (rw fine at h) in
          (omega (arith, k.0), (ltb_false→le _ _ fine, k.1))
    ]

conclude_won :
    (now : ℕ) (r s : ReplicaState) (candidate_term votes quorum : ℕ)
    → conclude now r candidate_term votes quorum ≡ (s, won)
    → (r.term ≡ candidate_term)
      × (r.role ≢ leader)
      × (quorum ≤ votes)
      × (s.role ≡ leader)
      × (s.term ≡ candidate_term)
      × (s.version ≡ r.version)
unfolding conclude
conclude_won now r s candidate_term votes quorum h = ground arith

after_votes_counted :
    (now : ℕ) (r s : ReplicaState) (candidate_term quorum : ℕ) (ds : List Delivery)
    → after_votes now r candidate_term quorum ds ≡ (s, won)
    → (n : ℕ) × (collect candidate_term 1 ds ≡ counted n)
      × (conclude now r candidate_term n quorum ≡ (s, won))
unfolding after_votes
after_votes_counted now r s candidate_term quorum ds h = ground arith

-- A candidate becomes leader only if it is still in the term that it stood for and does not lead
-- already, its wait was not cut off, no answer came from a higher term, and the votes, with
-- its own, are more than half of all replicas of the shard, reachable or not.
pub after_votes_won :
    (now : ℕ) (r s : ReplicaState) (candidate_term : ℕ) (ds : List Delivery)
    → after_votes now r candidate_term (election_quorum r.peers) ds ≡ (s, won)
    → (r.term ≡ candidate_term)
      × (r.role ≢ leader)
      × All (IsUpTo candidate_term) ds
      × (length r.peers + 1 < (grants ds + 1) * 2)
      × (s.role ≡ leader)
      × (s.term ≡ candidate_term)
      × (s.version ≡ r.version)
unfolding election_quorum
after_votes_won now r s candidate_term ds h =
    let (n, c, w) = after_votes_counted now r s candidate_term (election_quorum r.peers) ds h in
    let k = collect_counted candidate_term 1 ds n c in
    let q = conclude_won now r s candidate_term n (election_quorum r.peers) w in
    (q.0, q.1, k.1, omega (arith, k.0, q.2), q.3, q.4, q.5)
