-- ===== src/Coordinator/Migration/Finalise.antt =====
-- How `CheckMigrations` of coordinator/migration.go ends a migration.
use doki.Prelude.{
  String, true, false, ◌≡◌, refl, ◌∙◌, ap, arith, Bool-cases, Option-cases, inl, inr, List, [], ◌∷◌,
  none, some, eq_iff, str_eq, str_eq_refl, if◌then◌else◌,
}
use doki.Storage.{Pairs, lookup, without}
use doki.Storage.Laws.{lookup-without, IsKeyed}
use doki.ShardMap
use doki.ShardMap.{ShardInfo, ShardMap}
use doki.Coordinator.Leader.{LeaderManager, check_and_reassign}
use doki.Coordinator.Leader.Reassign.{
  led_by, led_by_self, led_by_twice, check_and_reassign-IsReassigned,
}
use doki.Coordinator.Migration.{
  MigrationManager, with_shards, finalise_migration, is_caught_up, every_caught_up, all_ready,
  check_pending,
}
use doki.Coordinator.Migration.Laws.{
  with_sides, lookup-with_sides, lookup-changed_same, set_replicas_there, set_replicas_missing,
  set_incoming_there,
}

-- The leader manager when a migration of a shard ends.
unfoldable pub switched : LeaderManager → String → ShardInfo → List String → LeaderManager
unfolding with_shards
switched lm id s fresh = with_shards lm (with_sides lm.shards id s fresh [])

pub finalise_there :
    (mm : MigrationManager) (id : String) (fresh : List String) (s : ShardInfo)
    → lookup mm.leader.shards.shards id ≡ some s
    → finalise_migration mm id fresh ≡ record {
      leader = (check_and_reassign (switched mm.leader id s fresh)).0;
      migrations = without mm.migrations id;
    }
unfolding finalise_migration switched with_sides
finalise_there mm id fresh s there =
    let m = mm.leader.shards in
    let next = ShardMap.replaced s fresh in
    rw (set_replicas_there m id fresh s there) (
      rw
        (set_incoming_there (ShardMap.changed m id next) id [] next (lookup-changed_same m id next))
        refl)

pub finalise_missing :
    (mm : MigrationManager) (id : String) (fresh : List String)
    → lookup mm.leader.shards.shards id ≡ none
    → finalise_migration mm id fresh ≡ mm
unfolding finalise_migration with_shards
finalise_missing mm id fresh missing =
    rw (set_replicas_missing mm.leader.shards id fresh missing) refl

-- What `CheckAndReassign` and `finaliseMigration` leave of another shard and of its migration.
abbrev pub IsApart : String → MigrationManager → MigrationManager → Type 0
IsApart j mm n =
    (n.leader.membership ≡ mm.leader.membership)
    × ((l : String) × (lookup n.leader.shards.shards j
          ≡ led_by l (lookup mm.leader.shards.shards j)))
    × (lookup n.migrations j ≡ lookup mm.migrations j)

IsApart-refl : (j : String) (mm : MigrationManager) → IsApart j mm mm
IsApart-refl j mm = (refl, led_by_self (lookup mm.leader.shards.shards j), refl)

IsApart-trans :
    (j : String) (mm n k : MigrationManager) → IsApart j mm n → IsApart j n k → IsApart j mm k
IsApart-trans j mm n k (p, (l, f), a) (q, (l2, g), b) = (
  q ∙ p,
  (l2, g ∙ ap (led_by l2) f ∙ led_by_twice l l2 (lookup mm.leader.shards.shards j)),
  b ∙ a,
)

switched_apart :
    (lm : LeaderManager) (id : String) (s : ShardInfo) (fresh : List String) (j : String)
    → str_eq id j ≡ false
    → lookup (switched lm id s fresh).shards.shards j ≡ lookup lm.shards.shards j
unfolding switched with_shards
switched_apart lm id s fresh j other =
    ground (arith, lookup-with_sides lm.shards id s fresh [] j, other)

finalise-IsApart :
    (mm : MigrationManager) (id : String) (fresh : List String) (j : String)
    → str_eq id j ≡ false
    → IsApart j mm (finalise_migration mm id fresh)
unfolding switched with_shards
finalise-IsApart mm id fresh j other = elim (Option-cases (lookup mm.leader.shards.shards id)) [
  | inl missing ↦ rw (finalise_missing mm id fresh missing) (IsApart-refl j mm)
  | inr (s, there) ↦
      let (p, f, g) = check_and_reassign-IsReassigned (switched mm.leader id s fresh) in
      let (l, e) = f j in
      rw (finalise_there mm id fresh s there) (
        p,
        (l, e ∙ ap (led_by l) (switched_apart mm.leader id s fresh j other)),
        ground (arith, lookup-without mm.migrations id j, other),
      )
]

-- The shard has the replicas it migrated to, none is marked, and the migration is over.
abbrev pub IsSwitched : String → List String → MigrationManager → Type 0
IsSwitched id fresh n =
    (s : ShardInfo) × (lookup n.leader.shards.shards id ≡ some s)
    × (s.replicas ≡ fresh)
    × (s.incoming_replicas ≡ [])
    × (lookup n.migrations id ≡ none)

finalise-IsSwitched :
    (mm : MigrationManager) (id : String) (fresh : List String) (s : ShardInfo)
    → lookup mm.leader.shards.shards id ≡ some s
    → IsSwitched id fresh (finalise_migration mm id fresh)
unfolding switched with_shards led_by ShardMap.replaced
finalise-IsSwitched mm id fresh s there =
    let (p, f, g) = check_and_reassign-IsReassigned (switched mm.leader id s fresh) in
    let (l, e) = f id in
    let t = record (ShardMap.replaced s fresh) { leader = l; incoming_replicas = [] } in
    rw (finalise_there mm id fresh s there) (
      t,
      ground (e, arith, lookup-with_sides mm.leader.shards id s fresh [] id, str_eq_refl id),
      refl,
      refl,
      ground (arith, lookup-without mm.migrations id id, str_eq_refl id),
    )

apart-IsSwitched :
    (id : String) (fresh : List String) (mm n : MigrationManager)
    → IsApart id mm n
    → IsSwitched id fresh mm
    → IsSwitched id fresh n
unfolding led_by
apart-IsSwitched id fresh mm n (p, (l, e), g) (s, there, a, b, c) =
    (record s { leader = l }, e ∙ rw there refl, a, b, g ∙ c)

every_membership :
    (lm n : LeaderManager) (id : String) (rs : List String)
    → n.membership ≡ lm.membership
    → every_caught_up n id rs ≡ every_caught_up lm id rs
unfolding every_caught_up is_caught_up
every_membership lm n id [] h = refl
every_membership lm n id (r ∷ rs) h = rw h (rw (every_membership lm n id rs h) refl)

pub all_ready_membership :
    (lm n : LeaderManager) (id : String) (rs : List String)
    → n.membership ≡ lm.membership
    → all_ready n id rs ≡ all_ready lm id rs
unfolding all_ready
all_ready_membership lm n id [] h = refl
all_ready_membership lm n id (r ∷ rs) h = every_membership lm n id (r ∷ rs) h

-- One round of the loop over the pending migrations.
abbrev pub checked : MigrationManager → String → List String → MigrationManager
checked mm id fresh = if all_ready mm.leader id fresh then finalise_migration mm id fresh else mm

checked-IsApart :
    (mm : MigrationManager) (id : String) (fresh : List String) (j : String)
    → str_eq id j ≡ false
    → IsApart j mm (checked mm id fresh)
checked-IsApart mm id fresh j other = elim (Bool-cases (all_ready mm.leader id fresh)) [
  | inl ready ↦ rw ready (finalise-IsApart mm id fresh j other)
  | inr waits ↦ rw waits (IsApart-refl j mm)
]

checked-IsSwitched :
    (mm : MigrationManager) (id : String) (fresh : List String) (s : ShardInfo)
    → lookup mm.leader.shards.shards id ≡ some s
    → all_ready mm.leader id fresh ≡ true
    → IsSwitched id fresh (checked mm id fresh)
checked-IsSwitched mm id fresh s there ready = rw ready (finalise-IsSwitched mm id fresh s there)

check_pending-IsApart :
    (mm : MigrationManager) (pending : Pairs (List String)) (j : String)
    → lookup pending j ≡ none
    → IsApart j mm (check_pending mm pending)
unfolding check_pending lookup
check_pending-IsApart mm [] j h = IsApart-refl j mm
check_pending-IsApart mm ((id, fresh) ∷ rest) j h =
    let next = checked mm id fresh in
    IsApart-trans j mm next (check_pending next rest)
      (checked-IsApart mm id fresh j (ground (h, arith)))
      (check_pending-IsApart next rest j (ground (h, arith)))

there_apart :
    (j : String) (mm n : MigrationManager) (s : ShardInfo)
    → IsApart j mm n
    → lookup mm.leader.shards.shards j ≡ some s
    → (t : ShardInfo) × (lookup n.leader.shards.shards j ≡ some t)
unfolding led_by
there_apart j mm n s (p, (l, e), g) there = (record s { leader = l }, e ∙ rw there refl)

-- A pending migration whose replicas are ready ends, whatever the other ones do.
pub check_pending-IsSwitched :
    (mm : MigrationManager) (pending : Pairs (List String)) (id : String) (fresh : List String)
    (s : ShardInfo)
    → IsKeyed pending
    → lookup pending id ≡ some fresh
    → lookup mm.leader.shards.shards id ≡ some s
    → all_ready mm.leader id fresh ≡ true
    → IsSwitched id fresh (check_pending mm pending)
unfolding check_pending lookup
check_pending-IsSwitched mm [] id fresh s keyed h there ready = absurd (ground (h, arith))
check_pending-IsSwitched mm ((k, rs) ∷ rest) id fresh s keyed h there ready =
    elim (Bool-cases (str_eq k id)) [
      | inl same ↦
          let q : k ≡ id = (eq_iff k id).0 same in
          let r : rs ≡ fresh = ground (h, same, arith) in
          let next = checked mm id fresh in
          rw q (
            rw r (
              apart-IsSwitched id fresh next (check_pending next rest)
                (check_pending-IsApart next rest id (rw q at (keyed.0)))
                (checked-IsSwitched mm id fresh s there ready)))
      | inr other ↦
          let next = checked mm k rs in
          let apart = checked-IsApart mm k rs id other in
          let (t, here) = there_apart id mm next s apart there in
          check_pending-IsSwitched next rest id fresh t keyed.1 (ground (h, other, arith)) here
            (all_ready_membership mm.leader next.leader id fresh apart.0 ∙ ready)
    ]
