-- ===== src/Coordinator/Examples.antt =====
-- The theorems about coordinator/*.go at a shard of three nodes, of which one is dead.
mod Moving
use doki.Prelude.{
  ℕ, String, ◌+◌, ◌≤◌, ◌<◌, ◌≡◌, refl, arith, Bool, List, [], ◌∷◌, some, true, false, inr, str_ne,
  u64,
}
use mathlib.Core.Path.{subst}
use doki.Storage
use doki.Storage.{lookup, Pairs}
use doki.ShardMap
use doki.ShardMap.{ShardInfo, ShardMap, is_among}
use doki.ShardMap.Laws.{IsValid, add, Change-IsValid}
use doki.Coordinator.Membership
use doki.Coordinator.Membership.{
  Membership, NodeStatus, ShardStatus, record_heartbeat, refresh_liveness,
}
use doki.Coordinator.Membership.Laws.{record_heartbeat-refresh_liveness, refresh_liveness_dead}
use doki.Coordinator.Leader.{
  LeaderManager, is_alive, term_for_shard, pick_candidate, check_and_reassign, notify_leader,
}
use doki.Coordinator.Leader.Laws.{
  check_and_reassign-IsValid, notify_leader_accepted, notify_leader_refused,
}
use doki.Coordinator.Leader.Pick.{IsEligible, version_of, pick_candidate_best}

abbrev pub node : String → Bool → ℕ → ℕ → NodeStatus
node id alive last version = record {
  id = id;
  address = id;
  is_alive = alive;
  last_heartbeat_at = last;
  shard_versions = ("s1", version) ∷ [];
}

abbrev pub cluster : Membership
cluster = record {
  nodes =
      ("n1", node "n1" false 10 7) ∷ ("n2", node "n2" true 95 6) ∷ ("n3", node "n3" true 96 5) ∷ [];
  timeout = 20;
}

abbrev pub shard : ShardInfo
shard = record {
  id = "s1";
  replicas = "n1" ∷ "n2" ∷ "n3" ∷ [];
  leader = "n1";
  bootstrap_source_shard_id = "";
  incoming_replicas = [];
}

abbrev pub manager : LeaderManager
manager = record {
  shards = record { version = 1; shards = ("s1", shard) ∷ [] };
  membership = cluster;
  terms = ("s1", 3) ∷ [];
}

new-IsValid : IsValid ShardMap.new
unfolding ShardMap.new lookup
new-IsValid id s h = ground arith

made : (ShardMap.add_shard ShardMap.new shard).0 ≡ manager.shards
unfolding ShardMap.add_shard ShardMap.new lookup Storage.with_pair Storage.without
made = refl

first_leads : ShardMap.has_replica shard "n1" ≡ true
unfolding ShardMap.has_replica
first_leads = refl

pub manager-IsValid : IsValid manager.shards
manager-IsValid = subst IsValid made (Change-IsValid (add shard (inr first_leads)) new-IsValid)

picks : pick_candidate manager shard ≡ ("n2", 4)
unfolding pick_candidate lookup term_for_shard Membership.get Membership.version_for_shard
picks = refl

pub third_among : is_among "n3" shard.replicas ≡ true
unfolding is_among
third_among = refl

third-IsEligible : IsEligible manager shard "n3"
unfolding Membership.get lookup is_alive
third-IsEligible = (str_ne "n3" "n1" refl, refl)

pick_candidate_best_example :
    (is_among "n2" shard.replicas ≡ true)
    × IsEligible manager shard "n2"
    × (4 ≡ u64 (term_for_shard manager "s1" + 1))
    × (version_of manager shard "n3" ≤ version_of manager shard "n2")
pick_candidate_best_example =
    pick_candidate_best manager shard "n2" "n3" 4 (str_ne "n2" "" refl)
      (str_ne "n1" "" refl, (str_ne "n2" "" refl, (str_ne "n3" "" refl, tt))) picks third_among
      third-IsEligible

abbrev told : LeaderManager
told = record {
  shards = record { version = 2; shards = ("s1", record shard { leader = "n3" }) ∷ [] };
  membership = cluster;
  terms = ("s1", 5) ∷ [];
}

accepts : notify_leader manager "s1" "n3" 5 ≡ (told, true)
unfolding notify_leader lookup ShardMap.set_leader Storage.with_pair Storage.without
    ShardMap.has_replica
accepts = refl

notify_leader_accepted_example :
    (term_for_shard manager "s1" < 5)
    × (term_for_shard told "s1" ≡ 5)
    × (ShardMap.leader_for told.shards "s1" ≡ ShardMap.leader_is "n3")
    × ((s : ShardInfo) × (lookup manager.shards.shards "s1" ≡ some s)
        × (ShardMap.has_replica s "n3" ≡ true))
notify_leader_accepted_example =
    notify_leader_accepted manager told "s1" "n3" 5 (str_ne "n3" "" refl) accepts

abbrev beat : List ShardStatus
beat = record { shard_id = "s1"; role = "FOLLOWER"; version = 7; is_ready = true; term = 3 } ∷ []

abbrev beaten : Membership
beaten = (record_heartbeat 100 cluster "n1" beat).0

beats : record_heartbeat 100 cluster "n1" beat ≡ (beaten, true)
unfolding record_heartbeat lookup
beats = refl

record_heartbeat-refresh_liveness_example :
    (ns : NodeStatus) × (Membership.get (refresh_liveness 110 beaten).0 "n1" ≡ some ns)
    × (ns.is_alive ≡ true)
record_heartbeat-refresh_liveness_example =
    record_heartbeat-refresh_liveness 100 110 cluster beaten "n1" beat (omega arith) (omega arith)
      beats
