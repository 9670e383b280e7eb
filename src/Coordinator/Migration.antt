-- ===== src/Coordinator/Migration.antt =====
-- coordinator/migration.go: migrations of shards to other replicas, and splits of shards.
-- The manager shares the shard map and the registry of nodes with the leader manager, of which it
-- holds the one copy here. The pending migrations are visited in the order of the list.
pub mod Laws
pub mod Finalise
pub mod Splits
pub mod Sound
pub mod Checks
use doki.Prelude.{
  ℕ, String, Bool, true, false, List, [], ◌∷◌, ◌++◌, Option, none, some, ◌==◌, if◌then◌else◌,
  str_eq, not, ◌||◌,
}
use doki.Storage.{Pairs, lookup, with_pair, without}
use doki.ShardMap
use doki.ShardMap.{ShardInfo, ShardMap, is_among}
use doki.Coordinator.Membership
use doki.Coordinator.Leader.{LeaderManager, is_alive, check_and_reassign}

pub record MigrationManager : Type 0 where
  pub leader : LeaderManager
  pub migrations : Pairs (List String)  -- the new replicas of each shard that migrates

unfoldable pub new_migration_manager : LeaderManager → MigrationManager
new_migration_manager leader = record { leader = leader; migrations = [] }

-- The replicas that are added: `existing` holds the old replicas only.
unfoldable pub added : List String → List String → List String
unfolding is_among
added existing [] = []
added existing (r ∷ rs) =
    let more = added existing rs in if is_among r existing then more else r ∷ more

unfoldable pub union : List String → List String → List String
unfolding added
union old fresh = old ++ added old fresh

unfoldable pub with_shards : LeaderManager → ShardMap → LeaderManager
with_shards lm m = record lm { shards = m }

-- A call of the shard map, and what follows it where it succeeds.
unfoldable pub after {ℓ} :
    {A : Type ℓ}
    → ShardMap × Option ShardMap.Err
    → (ShardMap → Option ShardMap.Err → A)
    → (ShardMap → A)
    → A
after (m, some e) failed go = failed m (some e)
after (m, none) failed go = go m

-- The migration of a shard that the map has.
unfoldable pub widen :
    MigrationManager → String → List String → ShardInfo → MigrationManager × Option ShardMap.Err
unfolding union with_shards after
widen mm shard_id new_replicas shard =
    after (ShardMap.set_replicas mm.leader.shards shard_id (union shard.replicas new_replicas))
      (λ m e. (record mm { leader = with_shards mm.leader m }, e))
      (λ m.
        after (ShardMap.set_incoming_replicas m shard_id new_replicas)
          (λ k e. (record mm { leader = with_shards mm.leader k }, e))
          (λ k. (
            record {
              leader = with_shards mm.leader k;
              migrations = with_pair mm.migrations shard_id new_replicas;
            },
            none,
          )))

unfoldable pub start_migration :
    MigrationManager → String → List String → MigrationManager × Option ShardMap.Err
unfolding widen ShardMap.get
start_migration mm shard_id new_replicas = elim (ShardMap.get mm.leader.shards shard_id) [
  | none ↦ (mm, some ShardMap.not_found)
  | some shard ↦ widen mm shard_id new_replicas shard
]

-- The node is alive and has reported a version of the shard.
unfoldable pub is_caught_up : LeaderManager → String → String → Bool
unfolding is_alive Membership.get
is_caught_up lm shard_id node_id =
    if not (is_alive (Membership.get lm.membership node_id))
    then false
    else not (Membership.version_for_shard lm.membership node_id shard_id == 0)

unfoldable pub every_caught_up : LeaderManager → String → List String → Bool
unfolding is_caught_up
every_caught_up lm shard_id [] = true
every_caught_up lm shard_id (node_id ∷ rest) =
    let others = every_caught_up lm shard_id rest in
    if is_caught_up lm shard_id node_id then others else false

unfoldable pub all_ready : LeaderManager → String → List String → Bool
unfolding every_caught_up
all_ready lm shard_id [] = false
all_ready lm shard_id (node_id ∷ rest) = every_caught_up lm shard_id (node_id ∷ rest)

-- The manager once the replicas are those of the migration.
unfoldable pub settled : MigrationManager → String → ShardMap → MigrationManager
unfolding with_shards
settled mm shard_id m = record {
  leader =
      (check_and_reassign
        (with_shards mm.leader (ShardMap.set_incoming_replicas m shard_id []).0)).0;
  migrations = without mm.migrations shard_id;
}

unfoldable pub finalise_migration : MigrationManager → String → List String → MigrationManager
unfolding after settled with_shards
finalise_migration mm shard_id new_replicas =
    after (ShardMap.set_replicas mm.leader.shards shard_id new_replicas)
      (λ m e. record mm { leader = with_shards mm.leader m }) (λ m. settled mm shard_id m)

-- The loop over the migrations that were pending when it began.
unfoldable pub check_pending : MigrationManager → Pairs (List String) → MigrationManager
unfolding all_ready finalise_migration
check_pending mm [] = mm
check_pending mm ((shard_id, new_replicas) ∷ rest) =
    let next =
      if all_ready mm.leader shard_id new_replicas
      then finalise_migration mm shard_id new_replicas
      else mm in
    check_pending next rest

-- A split shard whose replicas are ready, `shard` as the loop's snapshot has it.
unfoldable pub end_split : LeaderManager → ShardInfo → LeaderManager
unfolding after with_shards
end_split lm shard =
    after (ShardMap.clear_bootstrap_source lm.shards shard.id) (λ m e. with_shards lm m)
      (λ m.
        if str_eq shard.leader ""
        then (check_and_reassign (with_shards lm m)).0
        else with_shards lm m)

unfoldable pub check_split : LeaderManager → ShardInfo → LeaderManager
unfolding all_ready end_split
check_split lm shard =
    if str_eq shard.bootstrap_source_shard_id ""
    then lm
    else if all_ready lm shard.id shard.replicas
    then end_split lm shard
    else lm

unfoldable pub check_splits : LeaderManager → List ShardInfo → LeaderManager
unfolding check_split
check_splits lm [] = lm
check_splits lm (shard ∷ rest) = check_splits (check_split lm shard) rest

unfoldable pub check_migrations : MigrationManager → MigrationManager
unfolding check_pending check_splits
check_migrations mm =
    let next = check_pending mm mm.migrations in
    record next { leader = check_splits next.leader (ShardMap.all_shards next.leader.shards) }
