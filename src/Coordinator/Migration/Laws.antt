-- ===== src/Coordinator/Migration/Laws.antt =====
-- What `StartMigration` of coordinator/migration.go does, and the shard map's part in it.
use doki.Prelude.{
  String, ◌≡◌, refl, ◌∙◌, arith, Option-cases, inl, inr, ◌⊎◌, List, [], ◌∷◌, ◌++◌, none, some,
  eq_iff, str_eq, str_eq_refl, ◌||◌, if◌then◌else◌,
}
use doki.Storage.{lookup, with_pair}
use doki.Storage.Laws.{lookup-with_pair}
use doki.ShardMap.{
  ShardInfo, ShardMap, not_found, set_replicas, set_incoming_replicas, on_shard, changed, replaced,
  is_among, has_replica, get,
}
use doki.ShardMap.Laws.{IsValid, IsLed}
use doki.Coordinator.Migration.{MigrationManager, added, union, with_shards, widen, start_migration}

pub lookup-changed :
    (m : ShardMap) (id : String) (s : ShardInfo) (j : String)
    → lookup (changed m id s).shards j ≡ (if str_eq id j then some s else lookup m.shards j)
unfolding changed
lookup-changed m id s j = lookup-with_pair m.shards id s j

pub lookup-changed_same :
    (m : ShardMap) (id : String) (s : ShardInfo) → lookup (changed m id s).shards id ≡ some s
lookup-changed_same m id s = ground (arith, lookup-changed m id s id, str_eq_refl id)

pub set_replicas_there :
    (m : ShardMap) (id : String) (rs : List String) (s : ShardInfo)
    → lookup m.shards id ≡ some s
    → set_replicas m id rs ≡ (changed m id (replaced s rs), none)
unfolding set_replicas on_shard
set_replicas_there m id rs s there = ground (there, arith)

pub set_replicas_missing :
    (m : ShardMap) (id : String) (rs : List String)
    → lookup m.shards id ≡ none
    → set_replicas m id rs ≡ (m, some not_found)
unfolding set_replicas on_shard
set_replicas_missing m id rs missing = ground (missing, arith)

pub set_incoming_there :
    (m : ShardMap) (id : String) (rs : List String) (s : ShardInfo)
    → lookup m.shards id ≡ some s
    → set_incoming_replicas m id rs ≡ (changed m id (record s { incoming_replicas = rs }), none)
unfolding set_incoming_replicas on_shard
set_incoming_there m id rs s there = ground (there, arith)

-- The map with other replicas of a shard, and its incoming replicas.
unfoldable pub with_sides : ShardMap → String → ShardInfo → List String → List String → ShardMap
unfolding changed replaced
with_sides m id s rs incoming =
    changed (changed m id (replaced s rs)) id
      (record (replaced s rs) { incoming_replicas = incoming })

pub lookup-with_sides :
    (m : ShardMap) (id : String) (s : ShardInfo) (rs incoming : List String) (j : String)
    → lookup (with_sides m id s rs incoming).shards j ≡ (
        if str_eq id j
        then some (record (replaced s rs) { incoming_replicas = incoming })
        else lookup m.shards j)
unfolding with_sides
lookup-with_sides m id s rs incoming j = ground (
  arith,
  lookup-changed (changed m id (replaced s rs)) id
      (record (replaced s rs) { incoming_replicas = incoming }) j,
  lookup-changed m id (replaced s rs) j,
)

widen_lem :
    (mm : MigrationManager) (id : String) (fresh : List String) (s : ShardInfo)
    → lookup mm.leader.shards.shards id ≡ some s
    → widen mm id fresh s ≡ (
      record {
        leader =
            with_shards mm.leader (with_sides mm.leader.shards id s (union s.replicas fresh) fresh);
        migrations = with_pair mm.migrations id fresh;
      },
      none,
    )
unfolding widen with_sides
widen_lem mm id fresh s there =
    let m = mm.leader.shards in
    let wide = replaced s (union s.replicas fresh) in
    rw (set_replicas_there m id (union s.replicas fresh) s there) (
      rw (set_incoming_there (changed m id wide) id fresh wide (lookup-changed_same m id wide))
        refl)

pub start_migration_there :
    (mm : MigrationManager) (id : String) (fresh : List String) (s : ShardInfo)
    → lookup mm.leader.shards.shards id ≡ some s
    → start_migration mm id fresh ≡ (
      record {
        leader =
            with_shards mm.leader (with_sides mm.leader.shards id s (union s.replicas fresh) fresh);
        migrations = with_pair mm.migrations id fresh;
      },
      none,
    )
unfolding start_migration get
start_migration_there mm id fresh s there = ground (there, arith, widen_lem mm id fresh s there)

pub start_migration_missing :
    (mm : MigrationManager) (id : String) (fresh : List String)
    → lookup mm.leader.shards.shards id ≡ none
    → start_migration mm id fresh ≡ (mm, some not_found)
unfolding start_migration get
start_migration_missing mm id fresh missing = ground (missing, arith)

is_among-append :
    (r : String) (xs ys : List String) → is_among r (xs ++ ys) ≡ (is_among r xs || is_among r ys)
unfolding is_among
is_among-append r [] ys = refl
is_among-append r (x ∷ xs) ys = ground (arith, is_among-append r xs ys)

is_among-added :
    (r : String) (old fresh : List String)
    → (is_among r old || is_among r (added old fresh)) ≡ (is_among r old || is_among r fresh)
unfolding is_among added
is_among-added r old [] = refl
is_among-added r old (x ∷ xs) = ground (arith, is_among-added r old xs, eq_iff x r)

-- The replicas of a shard that migrates are the old ones and the new ones.
pub is_among-union :
    (r : String) (old fresh : List String)
    → is_among r (union old fresh) ≡ (is_among r old || is_among r fresh)
unfolding union
is_among-union r old fresh = is_among-append r old (added old fresh) ∙ is_among-added r old fresh

-- A wider set of replicas leaves the leader of a shard in place.
replaced_wider :
    (s : ShardInfo) (fresh : List String)
    → IsLed s
    → (replaced s (union s.replicas fresh)).leader ≡ s.leader
unfolding replaced has_replica
replaced_wider s fresh led =
    ground (arith, led, is_among-union s.leader s.replicas fresh, eq_iff s.leader "")

-- A shard that starts to migrate has its old and its new replicas, and the leader it had; the new
-- replicas are marked as incoming, and the migration is pending.
abbrev pub IsWidened : ShardInfo → List String → MigrationManager → Type 0
IsWidened s fresh n =
    (t : ShardInfo) × (lookup n.leader.shards.shards s.id ≡ some t)
    × (t.leader ≡ s.leader)
    × ((r : String) → has_replica t r ≡ (has_replica s r || is_among r fresh))
    × (t.incoming_replicas ≡ fresh)
    × (lookup n.migrations s.id ≡ some fresh)

IsWidened-there :
    (mm : MigrationManager) (id : String) (fresh : List String) (s : ShardInfo)
    → IsValid mm.leader.shards
    → lookup mm.leader.shards.shards id ≡ some s
    → IsWidened s fresh (start_migration mm id fresh).0
unfolding with_shards has_replica replaced
IsWidened-there mm id fresh s v there =
    let here = (v id s there).0 in
    rw here (
      rw (start_migration_there mm id fresh s there) (
        record (replaced s (union s.replicas fresh)) { incoming_replicas = fresh },
        ground (
          arith,
          lookup-with_sides mm.leader.shards id s (union s.replicas fresh) fresh id,
          str_eq_refl id,
        ),
        replaced_wider s fresh (v id s there).1,
        λ r. is_among-union r s.replicas fresh,
        refl,
        ground (arith, lookup-with_pair mm.migrations id fresh id, str_eq_refl id),
      ))

-- `StartMigration` fails for an unknown shard and then changes nothing, and succeeds for every
-- other: the shard keeps its leader and its replicas while it also has the new replicas, which are
-- marked as incoming, if every shard of the map is led by one of its replicas, or by nobody.
pub start_migration_widens :
    (mm : MigrationManager) (id : String) (fresh : List String)
    → IsValid mm.leader.shards
    → ((lookup mm.leader.shards.shards id ≡ none)
        × (start_migration mm id fresh ≡ (mm, some not_found)))
      ⊎ ((s : ShardInfo) × (lookup mm.leader.shards.shards id ≡ some s)
          × ((start_migration mm id fresh).1 ≡ none)
          × IsWidened s fresh (start_migration mm id fresh).0)
start_migration_widens mm id fresh v = elim (Option-cases (lookup mm.leader.shards.shards id)) [
  | inl missing ↦ inl (missing, start_migration_missing mm id fresh missing)
  | inr (s, there) ↦ inr (
    s,
    there,
    ground (arith, start_migration_there mm id fresh s there),
    IsWidened-there mm id fresh s v there,
  )
]
