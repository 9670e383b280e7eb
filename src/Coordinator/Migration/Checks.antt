-- ===== src/Coordinator/Migration/Checks.antt =====
-- What the loops of `CheckMigrations` of coordinator/migration.go keep and complete.
use doki.Prelude.{String, true, ◌≡◌, refl, ◌∙◌, Bool-cases, inl, inr, List, [], ◌∷◌, some}
use doki.Storage.{Pairs, lookup}
use doki.ShardMap
use doki.ShardMap.{ShardInfo, ShardMap}
use doki.Coordinator.Leader.{LeaderManager}
use doki.Coordinator.Migration.{
  MigrationManager, all_ready, check_pending, check_splits, check_migrations,
}
use doki.Coordinator.Migration.Finalise.{IsSwitched, checked, check_pending-IsSwitched}
use doki.Coordinator.Migration.Splits.{IsKept, relabelled, check_splits_kept}
use doki.Coordinator.Migration.Sound.{IsSound, kept-IsSound, finalise-IsSound}

checked-IsSound :
    (mm : MigrationManager) (id : String) (fresh : List String)
    → IsSound mm
    → IsSound (checked mm id fresh)
checked-IsSound mm id fresh sound = elim (Bool-cases (all_ready mm.leader id fresh)) [
  | inl ready ↦ rw ready (finalise-IsSound mm id fresh sound)
  | inr waits ↦ rw waits sound
]

check_pending-IsSound :
    (mm : MigrationManager) (pending : Pairs (List String))
    → IsSound mm
    → IsSound (check_pending mm pending)
unfolding check_pending
check_pending-IsSound mm [] sound = sound
check_pending-IsSound mm ((id, fresh) ∷ rest) sound =
    check_pending-IsSound (checked mm id fresh) rest (checked-IsSound mm id fresh sound)

pub check_migrations-IsSound : (mm : MigrationManager) → IsSound mm → IsSound (check_migrations mm)
unfolding check_migrations
check_migrations-IsSound mm sound =
    let next = check_pending mm mm.migrations in
    let after = check_pending-IsSound mm mm.migrations sound in
    let shards = ShardMap.all_shards next.leader.shards in
    let (kept, valid) = check_splits_kept next.leader shards in
    kept-IsSound next (check_splits next.leader shards) kept (valid after.0) after

kept-IsSwitched :
    (mm : MigrationManager) (n : LeaderManager) (id : String) (fresh : List String)
    → IsKept mm.leader n
    → IsSwitched id fresh mm
    → IsSwitched id fresh (record mm { leader = n })
unfolding relabelled
kept-IsSwitched mm n id fresh (p, f, g) (s, there, a, b, c) =
    let (l, d, e) = f id in
    (record s { leader = l; bootstrap_source_shard_id = d }, e ∙ rw there refl, a, b, c)

-- The check of the pending migrations ends each one whose new replicas are all alive and have
-- reported a version of the shard: the shard then has exactly the new replicas, none is marked as
-- incoming, and the migration is no longer pending, if the managers' state was sound.
pub check_migrations_completes :
    (mm : MigrationManager) (id : String) (fresh : List String)
    → IsSound mm
    → lookup mm.migrations id ≡ some fresh
    → all_ready mm.leader id fresh ≡ true
    → IsSwitched id fresh (check_migrations mm)
unfolding check_migrations
check_migrations_completes mm id fresh (v, managed, known, keyed) pending ready =
    let (s, there) = known id fresh pending in
    let next = check_pending mm mm.migrations in
    let done = check_pending-IsSwitched mm mm.migrations id fresh s keyed pending there ready in
    let shards = ShardMap.all_shards next.leader.shards in
    let (kept, valid) = check_splits_kept next.leader shards in
    kept-IsSwitched next (check_splits next.leader shards) id fresh kept done
