-- ===== src/Coordinator/Membership.antt =====
-- coordinator/membership.go: which nodes are alive, and the versions that they report.
-- Each operation holds the registry's lock and is one step; `now` is what the clock reads, 0 the
-- zero time. The status of a node stands under its ID.
pub mod Laws
use doki.Prelude.{
  ℕ, ◌-◌, String, Bool, true, false, List, [], ◌∷◌, Option, none, some, ltb, ◌==◌, if◌then◌else◌,
  map, str_eq,
}
use doki.Storage.{Pairs, lookup, with_pair}

pub record NodeSpec : Type 0 where
  pub id : String
  pub address : String

pub record NodeStatus : Type 0 where
  pub id : String
  pub address : String
  pub is_alive : Bool
  pub last_heartbeat_at : ℕ
  pub shard_versions : Pairs ℕ

pub record ShardStatus : Type 0 where
  pub shard_id : String
  pub role : String
  pub version : ℕ
  pub is_ready : Bool
  pub term : ℕ

pub record Membership : Type 0 where
  pub nodes : Pairs NodeStatus
  pub timeout : ℕ

unfoldable pub status_of : NodeSpec → NodeStatus
status_of n = record {
  id = n.id;
  address = n.address;
  is_alive = false;
  last_heartbeat_at = 0;
  shard_versions = [];
}

unfoldable pub registered : Pairs NodeStatus → List NodeSpec → Pairs NodeStatus
unfolding status_of
registered nodes [] = nodes
registered nodes (n ∷ ns) = registered (with_pair nodes n.id (status_of n)) ns

unfoldable pub new_membership : List NodeSpec → ℕ → Membership
unfolding registered
new_membership nodes failure_timeout = record {
  nodes = registered [] nodes;
  timeout = failure_timeout;
}

unfoldable pub reported : Pairs ℕ → List ShardStatus → Pairs ℕ
reported versions [] = versions
reported versions (s ∷ ss) = reported (with_pair versions s.shard_id s.version) ss

unfoldable pub with_heartbeat : ℕ → List ShardStatus → NodeStatus → NodeStatus
unfolding reported
with_heartbeat now shards ns = record ns {
  last_heartbeat_at = now;
  shard_versions = reported ns.shard_versions shards;
}

-- `false` is the error of an unknown node.
unfoldable pub record_heartbeat : ℕ → Membership → String → List ShardStatus → Membership × Bool
unfolding with_heartbeat
record_heartbeat now m node_id shards = elim (lookup m.nodes node_id) [
  | none ↦ (m, false)
  | some ns ↦ (record m { nodes = with_pair m.nodes node_id (with_heartbeat now shards ns) }, true)
]

-- A node that the clock is behind is alive, by the truncated subtraction too, if the timeout is
-- positive.
unfoldable pub is_live : ℕ → ℕ → ℕ → Bool
is_live now timeout last = if last == 0 then false else ltb (now - last) timeout

unfoldable pub refreshed : ℕ → ℕ → Pairs NodeStatus → Pairs NodeStatus
unfolding is_live
refreshed now timeout [] = []
refreshed now timeout ((id, ns) ∷ rest) =
    (id, record ns { is_alive = is_live now timeout ns.last_heartbeat_at })
    ∷ refreshed now timeout rest

-- The nodes whose status changes.
unfoldable pub changed_nodes : ℕ → ℕ → Pairs NodeStatus → List NodeStatus
unfolding is_live
changed_nodes now timeout [] = []
changed_nodes now timeout ((id, ns) ∷ rest) =
    let more = changed_nodes now timeout rest in
    let alive = is_live now timeout ns.last_heartbeat_at in
    elim ns.is_alive [
      | true ↦ if alive then more else record ns { is_alive = alive } ∷ more
      | false ↦ if alive then record ns { is_alive = alive } ∷ more else more
    ]

unfoldable pub refresh_liveness : ℕ → Membership → Membership × List NodeStatus
unfolding refreshed changed_nodes
refresh_liveness now m =
    (record m { nodes = refreshed now m.timeout m.nodes }, changed_nodes now m.timeout m.nodes)

unfoldable pub all_nodes : Membership → List NodeStatus
all_nodes m = map (λ (p : String × NodeStatus). p.1) m.nodes

unfoldable pub get : Membership → String → Option NodeStatus
get m node_id = lookup m.nodes node_id

alive_among : Pairs NodeStatus → List String
alive_among [] = []
alive_among ((id, ns) ∷ rest) =
    let more = alive_among rest in if ns.is_alive then id ∷ more else more

unfoldable pub alive_nodes : Membership → List String
unfolding alive_among
alive_nodes m = alive_among m.nodes

unfoldable pub add_node : Membership → NodeSpec → Membership
unfolding status_of
add_node m spec = elim (lookup m.nodes spec.id) [
  | some ns ↦ record m { nodes = with_pair m.nodes spec.id (record ns { address = spec.address }) }
  | none ↦ record m { nodes = with_pair m.nodes spec.id (status_of spec) }
]

-- A missing version is 0.
reported_or_zero : Option ℕ → ℕ
reported_or_zero none = 0
reported_or_zero (some v) = v

version_in : String → Option NodeStatus → ℕ
unfolding reported_or_zero
version_in shard_id none = 0
version_in shard_id (some ns) = reported_or_zero (lookup ns.shard_versions shard_id)

unfoldable pub version_for_shard : Membership → String → String → ℕ
unfolding version_in
version_for_shard m node_id shard_id = version_in shard_id (lookup m.nodes node_id)
