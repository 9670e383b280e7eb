-- ===== src/Coordinator/Examples/Moving.antt =====
-- The theorems about migrations, failover and the coordinator's calls, at small clusters.
use doki.Prelude.{String, ◌≡◌, refl, arith, List, [], ◌∷◌, none, some, true, inr, ◌⊎◌, str_ne}
use doki.Storage
use doki.Storage.{lookup}
use doki.Storage.Laws.{IsKeyed}
use doki.ShardMap
use doki.ShardMap.{ShardInfo, is_among}
use doki.Coordinator.Membership
use doki.Coordinator.Leader.{is_alive, check_and_reassign}
use doki.Coordinator.Leader.Failover.{IsServed}
use doki.Coordinator.Leader.Sweep.{check_and_reassign-IsServed}
use doki.Coordinator.Migration.{MigrationManager, start_migration, check_migrations, all_ready}
use doki.Coordinator.Migration.Laws.{IsWidened, start_migration_widens}
use doki.Coordinator.Migration.Finalise.{IsSwitched}
use doki.Coordinator.Migration.Sound.{IsSound, replicas_or_none, start_migration-IsSound}
use doki.Coordinator.Migration.Checks.{check_migrations_completes}
use doki.Coordinator.Server.{new_server, init, health_tick}
use doki.Coordinator.Server.Reach.{IsLedConfig, start, step, tick}
use doki.Coordinator.Server.Invariant.{Reachable-IsSound}
use doki.Config.{ClusterConfig, pos}
use doki.Coordinator.Examples.{manager, manager-IsValid, shard, third_among}

-- A coordinator with one shard, which does not migrate.
abbrev mover : MigrationManager
mover = record { leader = manager; migrations = [] }

abbrev pair : List String
pair = "n2" ∷ "n3" ∷ []

start_migration_widens_example :
    ((lookup mover.leader.shards.shards "s1" ≡ none)
      × (start_migration mover "s1" pair ≡ (mover, some ShardMap.not_found)))
    ⊎ ((s : ShardInfo) × (lookup mover.leader.shards.shards "s1" ≡ some s)
        × ((start_migration mover "s1" pair).1 ≡ none)
        × IsWidened s pair (start_migration mover "s1" pair).0)
start_migration_widens_example = start_migration_widens mover "s1" pair manager-IsValid

mover-IsSound : IsSound mover
unfolding lookup replicas_or_none
mover-IsSound = (
  manager-IsValid,
  λ j s h. ((3, ground (h, arith)), ground (h, arith)),
  λ j rs h. absurd (ground (h, arith)),
  tt,
)

abbrev moving : MigrationManager
moving = (start_migration mover "s1" pair).0

moves : lookup moving.migrations "s1" ≡ some pair
unfolding start_migration lookup ShardMap.set_replicas ShardMap.set_incoming_replicas
    Storage.with_pair Storage.without
moves = refl

catches_up : all_ready moving.leader "s1" pair ≡ true
unfolding start_migration lookup ShardMap.set_replicas ShardMap.set_incoming_replicas
    Storage.with_pair Storage.without all_ready Membership.get Membership.version_for_shard
catches_up = refl

check_migrations_completes_example : IsSwitched "s1" pair (check_migrations moving)
check_migrations_completes_example =
    check_migrations_completes moving "s1" pair
      (start_migration-IsSound mover "s1" pair mover-IsSound) moves catches_up

shards-IsKeyed : IsKeyed manager.shards.shards
unfolding lookup
shards-IsKeyed = (refl, tt)

there : lookup manager.shards.shards "s1" ≡ some shard
unfolding lookup
there = refl

third_alive : is_alive (Membership.get manager.membership "n3") ≡ true
unfolding Membership.get lookup is_alive
third_alive = refl

check_and_reassign-IsServed_example : IsServed (check_and_reassign manager).0 "s1"
check_and_reassign-IsServed_example =
    check_and_reassign-IsServed manager "s1" shard "n3" manager-IsValid shards-IsKeyed there
      (str_ne "n1" "" refl, (str_ne "n2" "" refl, (str_ne "n3" "" refl, tt))) third_among
      third_alive

abbrev cfg : ClusterConfig
cfg = record {
  coordinator = record {
    address = "c1";
    heartbeat_interval = pos 500000000;
    heartbeat_interval_ms = pos 500;
    failure_timeout = pos 1500000000;
    failure_timeout_ms = pos 1500;
  };
  nodes = record { id = "n1"; address = "a1" } ∷ record { id = "n2"; address = "a2" } ∷ [];
  shards = record { id = "s1"; replicas = "n1" ∷ "n2" ∷ []; initial_leader = "n1" } ∷ [];
  replication = record {
    quorum_timeout_ms = pos 1000;
    max_lag_versions = pos 1000;
    max_buffered_versions = pos 100;
  };
}

cfg-IsLedConfig : IsLedConfig cfg
unfolding is_among
cfg-IsLedConfig = (inr refl, tt)

Reachable-IsSound_example : IsSound (health_tick 7 (init (new_server cfg)).0).migration
Reachable-IsSound_example = Reachable-IsSound cfg cfg-IsLedConfig (step start (tick 7))
