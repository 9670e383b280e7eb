-- ===== src/ShardMap/Examples.antt =====
-- The theorems about internal/shardmap/shardmap.go at a map of one shard.
use doki.Prelude.{◌≡◌, refl, arith, [], ◌∷◌, none, some, true, inl, str_ne, if◌then◌else◌, str_eq}
use doki.Storage
use doki.Storage.{lookup}
use doki.ShardMap.{
  ShardInfo, ShardMap, add_shard, set_leader, leader_for, leader_is, has_replica, new,
}
use doki.ShardMap.Laws.{
  IsValid, IsVersioned, add, lead, Change-IsValid, Change-IsVersioned, set_leader-leader_for,
}

abbrev shard : ShardInfo
shard = record {
  id = "s1";
  replicas = "n1" ∷ "n2" ∷ [];
  leader = "";
  bootstrap_source_shard_id = "";
  incoming_replicas = [];
}

new-IsValid : IsValid new
unfolding new lookup
new-IsValid id s h = ground arith

Change-IsValid_example : IsValid (add_shard new shard).0
Change-IsValid_example = Change-IsValid (add shard (inl refl)) new-IsValid

abbrev one : ShardMap
one = record { version = 1; shards = ("s1", shard) ∷ [] }

Change-IsVersioned_example : IsVersioned one (set_leader one "s1" "n2")
Change-IsVersioned_example = Change-IsVersioned (lead "s1" "n2")

abbrev led : ShardMap
led = record { version = 2; shards = ("s1", record shard { leader = "n2" }) ∷ [] }

leads : set_leader one "s1" "n2" ≡ (led, none)
unfolding set_leader lookup Storage.with_pair Storage.without has_replica
leads = refl

set_leader-leader_for_example :
    ((s : ShardInfo) × (lookup one.shards "s1" ≡ some s) × (has_replica s "n2" ≡ true))
    × (leader_for led "s1" ≡ (if str_eq "s1" "s1" then leader_is "n2" else leader_for one "s1"))
set_leader-leader_for_example =
    set_leader-leader_for one led "s1" "n2" "s1" (str_ne "n2" "" refl) leads
