-- ===== src/Node/Quorum/Laws.antt =====
-- What the plan of node/quorum.go guarantees.
use doki.Prelude.{
  ℕ, ◌+◌, ◌*◌, ◌≤◌, ◌<◌, String, ◌≡◌, refl, arith, true, false, [], ◌∷◌, none, some, ◌==◌, le→leb,
  All, ◌⊎◌, ◌-◌,
}
use doki.Storage.{Pairs, lookup}
use doki.Node.Quorum.{live_peers, plan_quorum, has_live_quorum}

nonzero : (n : ℕ) → 0 < n → (n == 0) ≡ false
nonzero n h = ground arith

-- The planned quorum is more than half of the eligible replicas and at most all of them, the leader
-- and the needed followers make it up, and the check for live followers after the plan never fails.
pub plan_quorum_majority :
    (peer_addrs : Pairs String) (peer_last : Pairs ℕ) (now window : ℕ)
    → let q = plan_quorum peer_addrs peer_last now window in
      (q.total_eligible < q.quorum * 2)
      × (q.quorum ≤ q.total_eligible)
      × (q.needed_followers + 1 ≡ q.quorum)
      × (has_live_quorum q ≡ true)
unfolding plan_quorum has_live_quorum
plan_quorum_majority peer_addrs peer_last now window =
    (omega arith, omega arith, omega arith, le→leb _ _ (omega arith))

-- The last contact with a peer is unknown, or longer ago than the window.
abbrev pub IsSilent : Pairs ℕ → ℕ → ℕ → String → Type 0
IsSilent peer_last now window id =
    (lookup peer_last id ≡ none)
    ⊎ ((last : ℕ) × (lookup peer_last id ≡ some last) × (window < now - last))

live_peers_silent :
    (peer_last : Pairs ℕ) (now window : ℕ) (peer_addrs : Pairs String)
    → All (λ p. IsSilent peer_last now window p.0) peer_addrs
    → live_peers peer_last now window peer_addrs ≡ []
unfolding live_peers
live_peers_silent peer_last now window [] h = refl
live_peers_silent peer_last now window ((id, addr) ∷ rest) h =
    ground (arith, h.0, live_peers_silent peer_last now window rest h.1)

-- However many peers a shard has, once all of them have been silent for longer than the liveness
-- window the planned quorum is the leader alone, and no follower needs to acknowledge a write.
pub plan_quorum_silent :
    (peer_addrs : Pairs String) (peer_last : Pairs ℕ) (now window : ℕ)
    → 0 < window
    → All (λ p. IsSilent peer_last now window p.0) peer_addrs
    → let q = plan_quorum peer_addrs peer_last now window in
      (q.live_peers ≡ []) × (q.quorum ≡ 1) × (q.needed_followers ≡ 0)
unfolding plan_quorum
plan_quorum_silent peer_addrs peer_last now window pos h =
    rw (nonzero window pos, live_peers_silent peer_last now window peer_addrs h) (refl, refl, refl)
