-- ===== src/Node/Quorum.antt =====
-- node/quorum.go: which peers count for a write, and how many must acknowledge it.
pub mod Laws
use doki.Prelude.{
  ℕ, ◌+◌, ◌-◌, ◌/◌, String, Bool, true, false, List, [], ◌∷◌, Option, none, some, leb, length,
  if◌then◌else◌, ◌==◌,
}
use doki.Storage.{Pairs, lookup}

pub record QuorumInfo : Type 0 where
  pub live_peers : Pairs String
  pub total_eligible : ℕ
  pub quorum : ℕ
  pub needed_followers : ℕ

pub record WriteResult : Type 0 where
  pub applied_version : ℕ
  pub quorum : ℕ
  pub acked_followers : ℕ
  pub total_eligible : ℕ

-- `last, ok := peerLast[id]; ok && now.Sub(last) <= livenessWindow`. A contact that lies ahead of
-- `now` is within every positive window, by the truncated subtraction too.
is_live_contact : ℕ → ℕ → Option ℕ → Bool
is_live_contact now window none = false
is_live_contact now window (some last) = leb (now - last) window

unfoldable pub live_peers : Pairs ℕ → ℕ → ℕ → Pairs String → Pairs String
unfolding is_live_contact
live_peers peer_last now window [] = []
live_peers peer_last now window ((id, addr) ∷ rest) =
    let more = live_peers peer_last now window rest in
    if is_live_contact now window (lookup peer_last id) then (id, addr) ∷ more else more

-- A window of 0 turns the liveness test off, as a negative one does in the source.
unfoldable pub plan_quorum : Pairs String → Pairs ℕ → ℕ → ℕ → QuorumInfo
unfolding live_peers
plan_quorum peer_addrs peer_last now window =
    let live = if window == 0 then peer_addrs else live_peers peer_last now window peer_addrs in
    let total = length live + 1 in
    record {
      live_peers = live;
      total_eligible = total;
      quorum = total / 2 + 1;
      needed_followers = total / 2 + 1 - 1;
    }

unfoldable pub has_live_quorum : QuorumInfo → Bool
has_live_quorum q = leb q.needed_followers (length q.live_peers)

unfoldable pub result : QuorumInfo → ℕ → ℕ → WriteResult
result q applied_version acked = record {
  applied_version = applied_version;
  quorum = q.quorum;
  acked_followers = acked;
  total_eligible = q.total_eligible;
}
