-- ===== src/Config/Examples.antt =====
-- The theorems about internal/config/config.go at small configurations.
use doki.Prelude.{[], ◌∷◌, ◌≡◌, ◌↔◌, none}
use doki.Config.{ClusterConfig, pos, validate}
use doki.Config.Laws.{IsComplete, validate-IsComplete}

-- A configuration whose shard has an initial leader that is a node, but not a replica.
abbrev strange : ClusterConfig
strange = record {
  coordinator = record {
    address = "c1";
    heartbeat_interval = pos 0;
    heartbeat_interval_ms = pos 0;
    failure_timeout = pos 0;
    failure_timeout_ms = pos 1500;
  };
  nodes = record { id = "n1"; address = "a1" } ∷ record { id = "n2"; address = "a2" } ∷ [];
  shards = record { id = "s1"; replicas = "n1" ∷ []; initial_leader = "n2" } ∷ [];
  replication = record {
    quorum_timeout_ms = pos 0;
    max_lag_versions = pos 0;
    max_buffered_versions = pos 0;
  };
}

validate-IsComplete_example : (validate strange ≡ none) ↔ IsComplete strange
validate-IsComplete_example = validate-IsComplete strange
