-- ===== src/Config.antt =====
-- internal/config/config.go: the configurations of the coordinator and of the nodes.
-- `yaml.Unmarshal` is a parameter of the parsing functions: `none` is its error. Go's `int` and
-- `time.Duration` have 64 bits.
pub mod Laws
mod Examples
use doki.Prelude.{
  ℕ, suc, ◌+◌, ◌-◌, ◌*◌, ◌%◌, String, Bool, true, false, List, [], ◌∷◌, Option, none, some, ltb,
  ◌==◌, if◌then◌else◌, str_eq, not, ◌&&◌,
}
use doki.Coordinator.Membership.{NodeSpec}
use doki.Coordinator.Leader.{ShardSpec}

-- Go's signed integers, as the library's ℤ on the native numbers.
pub data ℤ : Type 0 where
  pos negsuc : ℕ → ℤ

-- The number that 64 bits stand for in two's complement.
unfoldable pub of_bits : ℕ → ℤ
of_bits m = if ltb m 9223372036854775808 then pos m else negsuc (18446744073709551615 - m)

-- `time.Duration(ms) * time.Millisecond`
unfoldable pub milliseconds : ℤ → ℤ
unfolding of_bits
milliseconds (pos n) = of_bits (n * 1000000 % 18446744073709551616)
milliseconds (negsuc n) =
    of_bits ((18446744073709551616 - suc n * 1000000 % 18446744073709551616) % 18446744073709551616)

unfoldable pub is_zero : ℤ → Bool
is_zero (pos n) = n == 0
is_zero (negsuc n) = false

unfoldable pub is_negative : ℤ → Bool
is_negative (pos n) = false
is_negative (negsuc n) = true

-- `if x == 0 { x = d }`
unfoldable pub or_default : ℤ → ℤ → ℤ
unfolding is_zero
or_default d x = if is_zero x then d else x

pub record CoordinatorConfig : Type 0 where
  pub address : String
  pub heartbeat_interval : ℤ
  pub heartbeat_interval_ms : ℤ
  pub failure_timeout : ℤ
  pub failure_timeout_ms : ℤ

pub record ReplicationConfig : Type 0 where
  pub quorum_timeout_ms : ℤ
  pub max_lag_versions : ℤ
  pub max_buffered_versions : ℤ

pub record ClusterConfig : Type 0 where
  pub coordinator : CoordinatorConfig
  pub nodes : List NodeSpec
  pub shards : List ShardSpec
  pub replication : ReplicationConfig

pub data Err : Type 0 where
  unreadable no_address no_nodes no_shards no_node_id no_shard_id : Err
  no_node_address no_replicas : String → Err
  unknown_replica unknown_leader : String → String → Err
  no_coordinator_address negative_interval negative_retention : Err

unfoldable pub with_defaults : ClusterConfig → ClusterConfig
unfolding or_default milliseconds
with_defaults c =
    let heartbeat_ms = or_default (pos 500) c.coordinator.heartbeat_interval_ms in
    let failure_ms = or_default (pos 1500) c.coordinator.failure_timeout_ms in
    record c {
      coordinator = record c.coordinator {
        heartbeat_interval = milliseconds heartbeat_ms;
        heartbeat_interval_ms = heartbeat_ms;
        failure_timeout = milliseconds failure_ms;
        failure_timeout_ms = failure_ms;
      };
      replication = record {
        quorum_timeout_ms = or_default (pos 1000) c.replication.quorum_timeout_ms;
        max_lag_versions = or_default (pos 1000) c.replication.max_lag_versions;
        max_buffered_versions = or_default (pos 100) c.replication.max_buffered_versions;
      };
    }

-- `nodeIDs[id]`
unfoldable pub is_node : List NodeSpec → String → Bool
is_node [] id = false
is_node (n ∷ ns) id = let rest = is_node ns id in if str_eq n.id id then true else rest

-- The first error of the two.
unfoldable pub first_err : Option Err → Option Err → Option Err
first_err none e = e
first_err (some e) later = some e

unfoldable pub check_that : Bool → Err → Option Err
check_that holds e = if holds then none else some e

unfoldable pub is_given : String → Bool
is_given s = not (str_eq s "")

unfoldable pub is_empty {ℓ} : {A : Type ℓ} → List A → Bool
is_empty [] = true
is_empty (x ∷ xs) = false

unfoldable pub validate_nodes : List NodeSpec → Option Err
unfolding first_err check_that is_given
validate_nodes [] = none
validate_nodes (n ∷ ns) =
    first_err (check_that (is_given n.id) no_node_id)
      (first_err (check_that (is_given n.address) (no_node_address n.id)) (validate_nodes ns))

unfoldable pub validate_replicas : List NodeSpec → String → List String → Option Err
unfolding first_err check_that is_node
validate_replicas nodes shard_id [] = none
validate_replicas nodes shard_id (r ∷ rs) =
    first_err (check_that (is_node nodes r) (unknown_replica shard_id r))
      (validate_replicas nodes shard_id rs)

-- `s.InitialLeader != "" && !nodeIDs[s.InitialLeader]`
unfoldable pub validate_leader : List NodeSpec → ShardSpec → Option Err
unfolding is_given is_node
validate_leader nodes s =
    if is_given s.initial_leader && not (is_node nodes s.initial_leader)
    then some (unknown_leader s.id s.initial_leader)
    else none

unfoldable pub validate_shards : List NodeSpec → List ShardSpec → Option Err
unfolding first_err check_that is_given is_empty validate_replicas validate_leader
validate_shards nodes [] = none
validate_shards nodes (s ∷ ss) = first_err (check_that (is_given s.id) no_shard_id) (
    first_err (check_that (not (is_empty s.replicas)) (no_replicas s.id)) (
      first_err (validate_replicas nodes s.id s.replicas)
        (first_err (validate_leader nodes s) (validate_shards nodes ss))))

unfoldable pub validate : ClusterConfig → Option Err
unfolding first_err check_that is_given is_empty validate_nodes validate_shards
validate c = first_err (check_that (is_given c.coordinator.address) no_address) (
    first_err (check_that (not (is_empty c.nodes)) no_nodes) (
      first_err (check_that (not (is_empty c.shards)) no_shards)
        (first_err (validate_nodes c.nodes) (validate_shards c.nodes c.shards))))

pub data Parsed {ℓ} (A : Type ℓ) : Type ℓ where
  parsed : A → Parsed A
  refused : Err → Parsed A

-- The configuration, or the error that was found in it.
unfoldable pub unless {ℓ} : {A : Type ℓ} → A → Option Err → Parsed A
unless c none = parsed c
unless c (some e) = refused e

unfoldable pub parse_cluster_config :
    (List ℕ → Option ClusterConfig) → List ℕ → Parsed ClusterConfig
unfolding unless validate with_defaults
parse_cluster_config unmarshal bytes = elim (unmarshal bytes) [
  | none ↦ refused unreadable
  | some c ↦ unless (with_defaults c) (validate c)
]

-- `none` is the error of an unknown node.
unfoldable pub node_by_id : List NodeSpec → String → Option NodeSpec
node_by_id [] id = none
node_by_id (n ∷ ns) id = let rest = node_by_id ns id in if str_eq n.id id then some n else rest

pub record NodeConfig : Type 0 where
  pub node : NodeSpec
  pub coordinator_address : String
  pub data_dir : String
  pub heartbeat_interval : ℤ
  pub heartbeat_interval_ms : ℤ
  pub quorum_timeout : ℤ
  pub quorum_timeout_ms : ℤ
  pub snapshot_interval : ℤ
  pub snapshot_retention : ℤ
  pub replication_log_size : ℤ
  pub leader_heartbeat_ms : ℤ
  pub leader_heartbeat : ℤ
  pub election_timeout_min_ms : ℤ
  pub election_timeout_max_ms : ℤ
  pub election_timeout_min : ℤ
  pub election_timeout_max : ℤ

-- `applyDefaults`: the two first intervals are kept where they are set.
unfoldable pub with_node_defaults : NodeConfig → NodeConfig
unfolding or_default milliseconds
with_node_defaults c =
    let heartbeat_ms = or_default (pos 500) c.heartbeat_interval_ms in
    let quorum_ms = or_default (pos 500) c.quorum_timeout_ms in
    let leader_ms = or_default (pos 150) c.leader_heartbeat_ms in
    let min_ms = or_default (pos 300) c.election_timeout_min_ms in
    let max_ms = or_default (pos 600) c.election_timeout_max_ms in
    record c {
      heartbeat_interval = or_default (milliseconds heartbeat_ms) c.heartbeat_interval;
      heartbeat_interval_ms = heartbeat_ms;
      quorum_timeout = or_default (milliseconds quorum_ms) c.quorum_timeout;
      quorum_timeout_ms = quorum_ms;
      snapshot_interval = or_default (pos 100) c.snapshot_interval;
      snapshot_retention = or_default (pos 2) c.snapshot_retention;
      replication_log_size = or_default (pos 1000) c.replication_log_size;
      leader_heartbeat_ms = leader_ms;
      leader_heartbeat = milliseconds leader_ms;
      election_timeout_min_ms = min_ms;
      election_timeout_max_ms = max_ms;
      election_timeout_min = milliseconds min_ms;
      election_timeout_max = milliseconds max_ms;
    }

unfoldable pub validate_node : NodeConfig → Option Err
unfolding first_err check_that is_given is_negative
validate_node c = first_err (check_that (is_given c.node.id) no_node_id) (
    first_err (check_that (is_given c.node.address) (no_node_address c.node.id)) (
      first_err (check_that (is_given c.coordinator_address) no_coordinator_address) (
        first_err (check_that (not (is_negative c.snapshot_interval)) negative_interval)
          (check_that (not (is_negative c.snapshot_retention)) negative_retention))))

unfoldable pub parse_node_config : (List ℕ → Option NodeConfig) → List ℕ → Parsed NodeConfig
unfolding unless validate_node with_node_defaults
parse_node_config unmarshal bytes = elim (unmarshal bytes) [
  | none ↦ refused unreadable
  | some c ↦ unless (with_node_defaults c) (validate_node c)
]
