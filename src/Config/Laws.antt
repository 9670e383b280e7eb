-- ===== src/Config/Laws.antt =====
-- What the checks and the defaults of internal/config/config.go promise.
use doki.Prelude.{
  String, Bool, true, false, not, List, [], ◌∷◌, Option, none, some, ◌≡◌, ◌≢◌, ◌↔◌, ◌⊎◌, refl,
  arith, All, eq_iff,
}
use doki.Coordinator.Membership.{NodeSpec}
use doki.Coordinator.Leader.{ShardSpec}
use doki.Config.{
  ℤ, pos, or_default, milliseconds, ClusterConfig, NodeConfig, Err, is_node, first_err, check_that,
  is_given, is_empty, validate_nodes, validate_replicas, validate_leader, validate_shards, validate,
  with_node_defaults, no_node_id, no_node_address, no_shard_id, no_replicas, unknown_replica,
  no_address, no_nodes, no_shards,
}

-- A node of this ID is among the nodes.
abbrev pub IsNode : List NodeSpec → String → Type 0
IsNode [] id = ⊥
IsNode (n ∷ ns) id = (n.id ≡ id) ⊎ IsNode ns id

abbrev pub IsReachable : NodeSpec → Type 0
IsReachable n = (n.id ≢ "") × (n.address ≢ "")

abbrev pub IsPlaced : List NodeSpec → ShardSpec → Type 0
IsPlaced nodes s =
    (s.id ≢ "")
    × ((s.replicas ≢ [])
        × (All (IsNode nodes) s.replicas
            × ((s.initial_leader ≡ "") ⊎ IsNode nodes s.initial_leader)))

-- What a cluster configuration has to be.
abbrev pub IsComplete : ClusterConfig → Type 0
IsComplete c =
    (c.coordinator.address ≢ "")
    × ((c.nodes ≢ [])
        × ((c.shards ≢ []) × (All IsReachable c.nodes × All (IsPlaced c.nodes) c.shards)))

first_err_iff {ℓ κ} :
    {P : Type ℓ} {Q : Type κ} (e f : Option Err)
    → ((e ≡ none) ↔ P)
    → ((f ≡ none) ↔ Q)
    → (first_err e f ≡ none) ↔ (P × Q)
unfolding first_err
first_err_iff none f p q = (λ h. (p.0 refl, q.0 h), λ (a, b). q.1 b)
first_err_iff (some e) f p q =
    (λ h. absurd (ground (h, arith)), λ (a, b). absurd (ground (p.1 a, arith)))

check_that_iff {ℓ} :
    {P : Type ℓ} (b : Bool) (e : Err) → ((b ≡ true) ↔ P) → (check_that b e ≡ none) ↔ P
unfolding check_that
check_that_iff true e p = (λ h. p.0 refl, λ a. refl)
check_that_iff false e p = (λ h. absurd (ground (h, arith)), λ a. absurd (ground (p.1 a, arith)))

is_given_iff : (s : String) → (is_given s ≡ true) ↔ (s ≢ "")
unfolding is_given
is_given_iff s = ground (arith, eq_iff s "")

is_filled_iff {ℓ} : {A : Type ℓ} (xs : List A) → (not (is_empty xs) ≡ true) ↔ (xs ≢ [])
unfolding is_empty
is_filled_iff [] = (λ h. absurd (ground (h, arith)), λ a. absurd (a refl))
is_filled_iff (x ∷ xs) = (λ h e. absurd (ground (e, arith)), λ a. refl)

is_node_iff : (nodes : List NodeSpec) (id : String) → (is_node nodes id ≡ true) ↔ IsNode nodes id
unfolding is_node
is_node_iff [] id = (λ h. absurd (ground (h, arith)), λ a. absurd a)
is_node_iff (n ∷ ns) id = ground (arith, eq_iff n.id id, is_node_iff ns id)

nodes_iff : (nodes : List NodeSpec) → (validate_nodes nodes ≡ none) ↔ All IsReachable nodes
unfolding validate_nodes
nodes_iff [] = (λ h. tt, λ a. refl)
nodes_iff (n ∷ ns) =
    let both =
      first_err_iff (check_that (is_given n.id) no_node_id)
        (first_err (check_that (is_given n.address) (no_node_address n.id)) (validate_nodes ns))
        (check_that_iff (is_given n.id) no_node_id (is_given_iff n.id))
        (first_err_iff (check_that (is_given n.address) (no_node_address n.id)) (validate_nodes ns)
          (check_that_iff (is_given n.address) (no_node_address n.id) (is_given_iff n.address))
          (nodes_iff ns)) in
    (λ h. let (a, (b, c)) = both.0 h in ((a, b), c), λ ((a, b), c). both.1 (a, (b, c)))

replicas_iff :
    (nodes : List NodeSpec) (id : String) (rs : List String)
    → (validate_replicas nodes id rs ≡ none) ↔ All (IsNode nodes) rs
unfolding validate_replicas
replicas_iff nodes id [] = (λ h. tt, λ a. refl)
replicas_iff nodes id (r ∷ rs) =
    first_err_iff (check_that (is_node nodes r) (unknown_replica id r))
      (validate_replicas nodes id rs)
      (check_that_iff (is_node nodes r) (unknown_replica id r) (is_node_iff nodes r))
      (replicas_iff nodes id rs)

leader_iff :
    (nodes : List NodeSpec) (s : ShardSpec)
    → (validate_leader nodes s ≡ none) ↔ ((s.initial_leader ≡ "") ⊎ IsNode nodes s.initial_leader)
unfolding validate_leader is_given
leader_iff nodes s = ground (arith, eq_iff s.initial_leader "", is_node_iff nodes s.initial_leader)

shards_iff :
    (nodes : List NodeSpec) (ss : List ShardSpec)
    → (validate_shards nodes ss ≡ none) ↔ All (IsPlaced nodes) ss
unfolding validate_shards
shards_iff nodes [] = (λ h. tt, λ a. refl)
shards_iff nodes (s ∷ ss) =
    let rest = validate_shards nodes ss in
    let filled = check_that (not (is_empty s.replicas)) (no_replicas s.id) in
    let replicas = validate_replicas nodes s.id s.replicas in
    let leader = validate_leader nodes s in
    let named = check_that (is_given s.id) no_shard_id in
    let both =
      first_err_iff named (first_err filled (first_err replicas (first_err leader rest)))
        (check_that_iff (is_given s.id) no_shard_id (is_given_iff s.id))
        (first_err_iff filled (first_err replicas (first_err leader rest))
          (check_that_iff (not (is_empty s.replicas)) (no_replicas s.id) (is_filled_iff s.replicas))
          (first_err_iff replicas (first_err leader rest) (replicas_iff nodes s.id s.replicas)
            (first_err_iff leader rest (leader_iff nodes s) (shards_iff nodes ss)))) in
    (
      λ h. let (a, (b, (c, (d, e)))) = both.0 h in ((a, (b, (c, d))), e),
      λ ((a, (b, (c, d))), e). both.1 (a, (b, (c, (d, e)))),
    )

-- The check of a cluster configuration finds no error exactly where there is a coordinator's
-- address, a node and a shard, every node has an ID and an address, and every shard has an ID and
-- replicas, which are nodes of the configuration, as its initial leader is, if it names one.
pub validate-IsComplete : (c : ClusterConfig) → (validate c ≡ none) ↔ IsComplete c
unfolding validate
validate-IsComplete c =
    let shards = validate_shards c.nodes c.shards in
    let nodes = validate_nodes c.nodes in
    let some_shard = check_that (not (is_empty c.shards)) no_shards in
    let some_node = check_that (not (is_empty c.nodes)) no_nodes in
    first_err_iff (check_that (is_given c.coordinator.address) no_address)
      (first_err some_node (first_err some_shard (first_err nodes shards)))
      (check_that_iff (is_given c.coordinator.address) no_address
        (is_given_iff c.coordinator.address))
      (first_err_iff some_node (first_err some_shard (first_err nodes shards))
        (check_that_iff (not (is_empty c.nodes)) no_nodes (is_filled_iff c.nodes))
        (first_err_iff some_shard (first_err nodes shards)
          (check_that_iff (not (is_empty c.shards)) no_shards (is_filled_iff c.shards))
          (first_err_iff nodes shards (nodes_iff c.nodes) (shards_iff c.nodes c.shards))))

-- A default that is itself a zero value is taken again.
or_default_same : (d x : ℤ) → or_default d (or_default d x) ≡ or_default d x
unfolding or_default
or_default_same d x = ground arith

-- Filling in a node's defaults again, as `EnsureDefaults` does, changes nothing.
pub with_node_defaults_again :
    (c : NodeConfig) → with_node_defaults (with_node_defaults c) ≡ with_node_defaults c
unfolding with_node_defaults
with_node_defaults_again c =
    rw
      (
        or_default_same (pos 500) c.heartbeat_interval_ms,
        or_default_same (pos 500) c.quorum_timeout_ms,
        or_default_same (pos 150) c.leader_heartbeat_ms,
        or_default_same (pos 300) c.election_timeout_min_ms,
        or_default_same (pos 600) c.election_timeout_max_ms,
        or_default_same (pos 100) c.snapshot_interval,
        or_default_same (pos 2) c.snapshot_retention,
        or_default_same (pos 1000) c.replication_log_size,
        or_default_same (milliseconds (or_default (pos 500) c.heartbeat_interval_ms))
            c.heartbeat_interval,
        or_default_same (milliseconds (or_default (pos 500) c.quorum_timeout_ms)) c.quorum_timeout,
      )
      refl
