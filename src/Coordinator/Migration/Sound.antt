-- ===== src/Coordinator/Migration/Sound.antt =====
-- The state that the managers of coordinator/*.go keep: the shard map, the terms and the pending
-- migrations fit together.
use doki.Prelude.{
  String, ◌≡◌, refl, ◌∙◌, sym, arith, Bool-cases, Option-cases, inl, inr, List, [], Option, none,
  some, eq_iff, str_eq, str_eq_refl, if◌then◌else◌,
}
use doki.Storage.{Pairs, lookup, with_pair, without}
use doki.Storage.Laws.{
  lookup-with_pair, lookup-without, IsKeyed, with_pair-IsKeyed, without-IsKeyed,
}
use doki.ShardMap
use doki.ShardMap.{ShardInfo, ShardMap}
use doki.ShardMap.Laws.{IsValid, changed-IsValid, replaced-IsLed}
use doki.Coordinator.Leader.{LeaderManager, check_and_reassign}
use doki.Coordinator.Leader.Laws.{check_and_reassign-IsValid}
use doki.Coordinator.Leader.Reassign.{HasTerm, check_and_reassign-IsReassigned}
use doki.Coordinator.Migration.{
  MigrationManager, with_shards, union, start_migration, finalise_migration,
}
use doki.Coordinator.Migration.Laws.{
  with_sides, lookup-with_sides, start_migration_there, start_migration_missing,
}
use doki.Coordinator.Migration.Finalise.{switched, finalise_there, finalise_missing}
use doki.Coordinator.Migration.Splits.{IsKept, relabelled, relabelled-some, IsReassigned-IsKept}

unfoldable pub replicas_or_none : Option (List String) → List String
replicas_or_none none = []
replicas_or_none (some rs) = rs

-- Every shard has a term, and marks as incoming what its pending migration brings, or nothing.
abbrev pub IsManaged : LeaderManager → Pairs (List String) → Type 0
IsManaged lm migrations =
    (j : String) (s : ShardInfo)
    → lookup lm.shards.shards j ≡ some s
    → HasTerm lm j × (s.incoming_replicas ≡ replicas_or_none (lookup migrations j))

-- The pending migrations are of shards of the map.
abbrev pub IsKnown : LeaderManager → Pairs (List String) → Type 0
IsKnown lm migrations =
    (j : String) (rs : List String)
    → lookup migrations j ≡ some rs
    → (s : ShardInfo) × (lookup lm.shards.shards j ≡ some s)

-- The shards are valid, each has a term and marks as incoming what its one pending migration
-- brings, or nothing, and only shards of the map migrate.
abbrev pub IsSound : MigrationManager → Type 0
IsSound mm =
    IsValid mm.leader.shards
    × IsManaged mm.leader mm.migrations
    × IsKnown mm.leader mm.migrations
    × IsKeyed mm.migrations

pub kept-IsSound :
    (mm : MigrationManager) (n : LeaderManager)
    → IsKept mm.leader n
    → IsValid n.shards
    → IsSound mm
    → IsSound (record mm { leader = n })
unfolding relabelled
kept-IsSound mm n (p, f, g) valid (v, managed, known, keyed) = (
  valid,
  λ j t h.
      let (l, b, e) = f j in
      let (s, there, same) = relabelled-some l b (lookup mm.leader.shards.shards j) t (sym e ∙ h) in
      (g j (managed j s there).0, rw same ((managed j s there).1)),
  λ j rs h.
      let (s, there) = known j rs h in
      let (l, b, e) = f j in
      (record s { leader = l; bootstrap_source_shard_id = b }, e ∙ rw there refl),
  keyed,
)

-- The pending migrations differ at most in those of one shard.
abbrev IsElsewhere : String → Pairs (List String) → Pairs (List String) → Type 0
IsElsewhere id migrations next =
    (j : String) → lookup next j ≡ (if str_eq id j then lookup next id else lookup migrations j)

with_sides-IsValid :
    (m : ShardMap) (id : String) (s : ShardInfo) (rs incoming : List String)
    → IsValid m
    → lookup m.shards id ≡ some s
    → IsValid (with_sides m id s rs incoming)
unfolding with_sides ShardMap.replaced ShardMap.has_replica
with_sides-IsValid m id s rs incoming v there =
    let next = ShardMap.replaced s rs in
    let led = replaced-IsLed s rs in
    let here : next.id ≡ id = (v id s there).0 in
    let w = changed-IsValid m id next v here led in
    changed-IsValid (ShardMap.changed m id next) id (record next { incoming_replicas = incoming }) w
      here led

sides-IsSound :
    (mm : MigrationManager) (id : String) (s : ShardInfo) (rs incoming : List String)
    (next : Pairs (List String))
    → lookup mm.leader.shards.shards id ≡ some s
    → incoming ≡ replicas_or_none (lookup next id)
    → IsElsewhere id mm.migrations next
    → IsKeyed next
    → IsSound mm
    → IsSound (record {
      leader = with_shards mm.leader (with_sides mm.leader.shards id s rs incoming);
      migrations = next;
    })
unfolding with_shards ShardMap.replaced
sides-IsSound mm id s rs incoming next there brought other keyed2 (v, managed, known, keyed) =
    let at = lookup-with_sides mm.leader.shards id s rs incoming in
    (
      with_sides-IsValid mm.leader.shards id s rs incoming v there,
      λ j t h. elim (Bool-cases (str_eq id j)) [
        | inl same ↦
            let q : id ≡ j = (eq_iff id j).0 same in
            (rw q at ((managed id s there).0), ground (arith, at j, h, same, brought, q))
        | inr apart ↦
            let old : lookup mm.leader.shards.shards j ≡ some t = ground (arith, at j, h, apart) in
            let e : lookup next j ≡ lookup mm.migrations j = ground (arith, other j, apart) in
            ((managed j t old).0, rw e ((managed j t old).1))
      ],
      λ j fresh h. elim (Bool-cases (str_eq id j)) [
        | inl same ↦ (
          record (ShardMap.replaced s rs) { incoming_replicas = incoming },
          ground (arith, at j, same),
        )
        | inr apart ↦
            let e : lookup next j ≡ lookup mm.migrations j = ground (arith, other j, apart) in
            let (t, old) = known j fresh (sym e ∙ h) in (t, ground (arith, at j, apart, old))
      ],
      keyed2,
    )

with_pair-IsElsewhere :
    (m : Pairs (List String)) (id : String) (rs : List String)
    → IsElsewhere id m (with_pair m id rs)
with_pair-IsElsewhere m id rs j =
    ground (arith, lookup-with_pair m id rs j, lookup-with_pair m id rs id, str_eq_refl id)

without-IsElsewhere : (m : Pairs (List String)) (id : String) → IsElsewhere id m (without m id)
without-IsElsewhere m id j =
    ground (arith, lookup-without m id j, lookup-without m id id, str_eq_refl id)

brought_by :
    (m : Pairs (List String)) (id : String) (rs : List String)
    → rs ≡ replicas_or_none (lookup (with_pair m id rs) id)
unfolding replicas_or_none
brought_by m id rs = ground (arith, lookup-with_pair m id rs id, str_eq_refl id)

brought_no_more :
    (m : Pairs (List String)) (id : String) → [] ≡ replicas_or_none (lookup (without m id) id)
unfolding replicas_or_none
brought_no_more m id = ground (arith, lookup-without m id id, str_eq_refl id)

pub start_migration-IsSound :
    (mm : MigrationManager) (id : String) (fresh : List String)
    → IsSound mm
    → IsSound (start_migration mm id fresh).0
start_migration-IsSound mm id fresh sound =
    elim (Option-cases (lookup mm.leader.shards.shards id)) [
      | inl missing ↦ rw (start_migration_missing mm id fresh missing) sound
      | inr (s, there) ↦ rw (start_migration_there mm id fresh s there) (
          sides-IsSound mm id s (union s.replicas fresh) fresh (with_pair mm.migrations id fresh)
            there (brought_by mm.migrations id fresh) (with_pair-IsElsewhere mm.migrations id fresh)
            (with_pair-IsKeyed mm.migrations id fresh sound.3) sound)
    ]

pub reassigned-IsSound :
    (mm : MigrationManager)
    → IsSound mm
    → IsSound (record mm { leader = (check_and_reassign mm.leader).0 })
reassigned-IsSound mm sound =
    let n = (check_and_reassign mm.leader).0 in
    kept-IsSound mm n (IsReassigned-IsKept mm.leader n (check_and_reassign-IsReassigned mm.leader))
      (check_and_reassign-IsValid mm.leader sound.0) sound

pub finalise-IsSound :
    (mm : MigrationManager) (id : String) (fresh : List String)
    → IsSound mm
    → IsSound (finalise_migration mm id fresh)
unfolding switched
finalise-IsSound mm id fresh sound = elim (Option-cases (lookup mm.leader.shards.shards id)) [
  | inl missing ↦ rw (finalise_missing mm id fresh missing) sound
  | inr (s, there) ↦
      let rest = without mm.migrations id in
      rw (finalise_there mm id fresh s there) (
        reassigned-IsSound (record { leader = switched mm.leader id s fresh; migrations = rest })
          (sides-IsSound mm id s fresh [] rest there (brought_no_more mm.migrations id)
            (without-IsElsewhere mm.migrations id) (without-IsKeyed mm.migrations id sound.3)
            sound))
]
