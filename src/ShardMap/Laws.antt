-- ===== src/ShardMap/Laws.antt =====
-- What internal/shardmap/shardmap.go promises: a shard's leader is one of its replicas, and the
-- version tells every change.
use doki.Prelude.{
  ℕ, ◌+◌, String, ◌≡◌, ◌≢◌, refl, sym, ◌∙◌, arith, true, Bool-cases, inl, inr, ◌⊎◌, List, Option,
  none, some, Option-cases, u64, eq_iff, str_eq, str_eq_of_ne, if◌then◌else◌,
}
use doki.Storage.{lookup, without}
use doki.Storage.Laws.{lookup-with_pair, lookup-without}
use doki.ShardMap.{
  ShardInfo, ShardMap, Err, has_replica, changed, on_shard, add_shard, set_leader, set_leader_of,
  replaced, set_replicas, set_incoming_replicas, clear_bootstrap_source, remove_shard, leader_for,
  leader_is, leader_err, no_leader, not_found, already_exists,
}

-- The shard has no leader, or one of its replicas leads it.
abbrev pub IsLed : ShardInfo → Type 0
IsLed s = (s.leader ≡ "") ⊎ (has_replica s s.leader ≡ true)

-- Every shard stands under its ID and is led by one of its replicas, if at all.
abbrev pub IsValid : ShardMap → Type 0
IsValid m = (id : String) (s : ShardInfo) → lookup m.shards id ≡ some s → (s.id ≡ id) × IsLed s

pub changed-IsValid :
    (m : ShardMap) (id : String) (s : ShardInfo)
    → IsValid m
    → s.id ≡ id
    → IsLed s
    → IsValid (changed m id s)
unfolding changed
changed-IsValid m id s v here led j t h =
    ground (arith, lookup-with_pair m.shards id s j, v j t, eq_iff id j, here, led, h)

pub replaced-IsLed : (s : ShardInfo) (rs : List String) → IsLed (replaced s rs)
unfolding replaced has_replica
replaced-IsLed s rs = ground (arith, eq_iff s.leader "")

-- A mutation of the map, and what it leaves.
pub data Change (m : ShardMap) : ShardMap × Option Err → Type 0 where
  add : (info : ShardInfo) → IsLed info → Change m (add_shard m info)
  lead : (id node : String) → Change m (set_leader m id node)
  replace : (id : String) (rs : List String) → Change m (set_replicas m id rs)
  migrate : (id : String) (rs : List String) → Change m (set_incoming_replicas m id rs)
  clear : (id : String) → Change m (clear_bootstrap_source m id)
  remove : (id : String) → Change m (remove_shard m id)

pub on_shard_cases :
    (m : ShardMap) (id : String) (act : ShardInfo → ShardMap × Option Err)
    → ((lookup m.shards id ≡ none) × (on_shard m id act ≡ (m, some not_found)))
      ⊎ ((s : ShardInfo) × (lookup m.shards id ≡ some s) × (on_shard m id act ≡ act s))
unfolding on_shard
on_shard_cases m id act = elim (Option-cases (lookup m.shards id)) [
  | inl missing ↦ inl (missing, ground (missing, arith))
  | inr (s, there) ↦ inr (s, there, ground (there, arith))
]

pub add_shard_cases :
    (m : ShardMap) (info : ShardInfo)
    → (add_shard m info ≡ (m, some already_exists))
      ⊎ (add_shard m info ≡ (changed m info.id info, none))
unfolding add_shard
add_shard_cases m info = ground arith

add-IsValid :
    (m : ShardMap) (info : ShardInfo) → IsValid m → IsLed info → IsValid (add_shard m info).0
add-IsValid m info v led = elim (add_shard_cases m info) [
  | inl taken ↦ rw taken v
  | inr free ↦ rw free (changed-IsValid m info.id info v refl led)
]

set_leader_of-IsValid :
    (m : ShardMap) (id node : String) (s : ShardInfo)
    → IsValid m
    → s.id ≡ id
    → IsValid (set_leader_of m id node s).0
unfolding set_leader_of has_replica
set_leader_of-IsValid m id node s v here = elim (Bool-cases (has_replica s node)) [
  | inl among ↦ rw among (changed-IsValid m id (record s { leader = node }) v here (inr among))
  | inr strange ↦ rw strange v
]

-- What `on_shard` does to a shard of the map it finds under its ID, led as it should be.
on_shard-IsValid :
    (m : ShardMap) (id : String) (act : ShardInfo → ShardMap × Option Err)
    → IsValid m
    → ((s : ShardInfo) → s.id ≡ id → IsLed s → IsValid (act s).0)
    → IsValid (on_shard m id act).0
on_shard-IsValid m id act v keeps = elim (on_shard_cases m id act) [
  | inl (missing, e) ↦ rw e v
  | inr (s, there, e) ↦ rw e (keeps s (v id s there).0 (v id s there).1)
]

remove-IsValid :
    (m : ShardMap) (id : String) (n : ℕ)
    → IsValid m
    → IsValid (record { version = n; shards = without m.shards id })
remove-IsValid m id n v j t h = v j t (ground (arith, lookup-without m.shards id j, h))

-- No mutation of a map in which every shard stands under its ID and is led by one of its replicas,
-- or by nobody, leaves a map in which this is not so, if a shard that is added is led so.
pub Change-IsValid :
    {m : ShardMap} {r : ShardMap × Option Err} → Change m r → IsValid m → IsValid r.0
unfolding set_leader set_replicas set_incoming_replicas clear_bootstrap_source remove_shard replaced
Change-IsValid {m} (add info led) v = add-IsValid m info v led
Change-IsValid {m} (lead id node) v =
    on_shard-IsValid m id (set_leader_of m id node) v
      (λ s here led. set_leader_of-IsValid m id node s v here)
Change-IsValid {m} (replace id rs) v =
    on_shard-IsValid m id _ v
      (λ s here led. changed-IsValid m id (replaced s rs) v here (replaced-IsLed s rs))
Change-IsValid {m} (migrate id rs) v =
    on_shard-IsValid m id _ v
      (λ s here led. changed-IsValid m id (record s { incoming_replicas = rs }) v here led)
Change-IsValid {m} (clear id) v = on_shard-IsValid m id _ v (λ s here led.
    elim (Bool-cases (str_eq s.bootstrap_source_shard_id "")) [
      | inl already ↦ rw already v
      | inr set ↦
          rw set (changed-IsValid m id (record s { bootstrap_source_shard_id = "" }) v here led)
    ])
Change-IsValid {m} (remove id) v =
    on_shard-IsValid m id _ v (λ s here led. remove-IsValid m id (u64 (m.version + 1)) v)

-- The map is as it was, or the call succeeded and the version is the next one.
abbrev pub IsVersioned : ShardMap → ShardMap × Option Err → Type 0
IsVersioned m r = (r.0 ≡ m) ⊎ ((r.1 ≡ none) × (r.0.version ≡ u64 (m.version + 1)))

on_shard-IsVersioned :
    (m : ShardMap) (id : String) (act : ShardInfo → ShardMap × Option Err)
    → ((s : ShardInfo) → IsVersioned m (act s))
    → IsVersioned m (on_shard m id act)
on_shard-IsVersioned m id act each = elim (on_shard_cases m id act) [
  | inl (missing, e) ↦ rw e (inl refl)
  | inr (s, there, e) ↦ rw e (each s)
]

-- A mutation that leaves another map has succeeded, and has taken the next version.
pub Change-IsVersioned : {m : ShardMap} {r : ShardMap × Option Err} → Change m r → IsVersioned m r
unfolding set_leader set_leader_of set_replicas set_incoming_replicas clear_bootstrap_source
    remove_shard changed add_shard
Change-IsVersioned {m} (add info led) = ground arith
Change-IsVersioned {m} (lead id node) = on_shard-IsVersioned m id _ (λ s. ground arith)
Change-IsVersioned {m} (replace id rs) = on_shard-IsVersioned m id _ (λ s. inr (refl, refl))
Change-IsVersioned {m} (migrate id rs) = on_shard-IsVersioned m id _ (λ s. inr (refl, refl))
Change-IsVersioned {m} (clear id) = on_shard-IsVersioned m id _ (λ s. ground arith)
Change-IsVersioned {m} (remove id) = on_shard-IsVersioned m id _ (λ s. inr (refl, refl))

set_leader_of_done :
    (m n : ShardMap) (id node : String) (s : ShardInfo)
    → set_leader_of m id node s ≡ (n, none)
    → (has_replica s node ≡ true) × (n ≡ changed m id (record s { leader = node }))
unfolding set_leader_of
set_leader_of_done m n id node s h = ground arith

pub set_leader_done :
    (m n : ShardMap) (id node : String)
    → set_leader m id node ≡ (n, none)
    → (s : ShardInfo) × (lookup m.shards id ≡ some s)
      × (has_replica s node ≡ true)
      × (n ≡ changed m id (record s { leader = node }))
unfolding set_leader
set_leader_done m n id node h = elim (on_shard_cases m id (set_leader_of m id node)) [
  | inl (missing, e) ↦ cc (h, e)
  | inr (s, there, e) ↦ let d = set_leader_of_done m n id node s (sym e ∙ h) in (s, there, d.0, d.1)
]

leader_for-changed :
    (m : ShardMap) (id j : String) (s : ShardInfo)
    → leader_for (changed m id s) j ≡ (
        if str_eq id j
        then (if str_eq s.leader "" then leader_err no_leader else leader_is s.leader)
        else leader_for m j)
unfolding leader_for changed
leader_for-changed m id j s = ground (arith, lookup-with_pair m.shards id s j)

-- If `SetLeader` succeeds, the node is one of the shard's replicas, and `LeaderFor` answers with it
-- for this shard, if it has a name, and for every other shard as before.
pub set_leader-leader_for :
    (m n : ShardMap) (id node other : String)
    → node ≢ ""
    → set_leader m id node ≡ (n, none)
    → ((s : ShardInfo) × (lookup m.shards id ≡ some s) × (has_replica s node ≡ true))
      × (leader_for n other ≡ (if str_eq id other then leader_is node else leader_for m other))
set_leader-leader_for m n id node other named h =
    let (s, there, among, e) = set_leader_done m n id node h in
    (
      (s, there, among),
      rw e (
          leader_for-changed m id other (record s { leader = node })
          ∙ rw (str_eq_of_ne node "" named)),
    )
