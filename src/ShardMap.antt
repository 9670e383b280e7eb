-- ===== src/ShardMap.antt =====
-- internal/shardmap/shardmap.go: the coordinator's versioned map of the shards.
-- Each operation holds the map's lock and is one step. `Version` and `All` read a field.
pub mod Laws
mod Examples
use doki.Prelude.{
  ℕ, ◌+◌, ◌/◌, String, Bool, true, false, List, [], ◌∷◌, Option, none, some, u64, if◌then◌else◌,
  str_eq, length, map, ◌||◌, not,
}
use doki.Storage.{Pairs, lookup, with_pair, without}

pub record ShardInfo : Type 0 where
  pub id : String
  pub replicas : List String
  pub leader : String
  pub bootstrap_source_shard_id : String
  pub incoming_replicas : List String

pub record ShardMap : Type 0 where
  pub version : ℕ  -- uint64
  pub shards : Pairs ShardInfo

pub data Err : Type 0 where
  already_exists not_found not_a_replica no_leader : Err

unfoldable pub quorum : ShardInfo → ℕ
quorum s = length s.replicas / 2 + 1

unfoldable pub is_among : String → List String → Bool
is_among node_id [] = false
is_among node_id (r ∷ rs) = str_eq r node_id || is_among node_id rs

unfoldable pub has_replica : ShardInfo → String → Bool
unfolding is_among
has_replica s node_id = is_among node_id s.replicas

unfoldable pub new : ShardMap
new = record { version = 0; shards = [] }

unfoldable pub get : ShardMap → String → Option ShardInfo
get m shard_id = lookup m.shards shard_id

-- A change of the shard with this ID, which the map has.
unfoldable pub changed : ShardMap → String → ShardInfo → ShardMap
changed m shard_id s = record {
  version = u64 (m.version + 1);
  shards = with_pair m.shards shard_id s;
}

unfoldable pub add_shard : ShardMap → ShardInfo → ShardMap × Option Err
unfolding changed
add_shard m info = elim (lookup m.shards info.id) [
  | some _ ↦ (m, some already_exists)
  | none ↦ (changed m info.id info, none)
]

-- The lookup with which the mutations of a shard begin.
unfoldable pub on_shard :
    ShardMap → String → (ShardInfo → ShardMap × Option Err) → ShardMap × Option Err
on_shard m shard_id act = elim (lookup m.shards shard_id) [
  | none ↦ (m, some not_found)
  | some s ↦ act s
]

unfoldable pub set_leader_of : ShardMap → String → String → ShardInfo → ShardMap × Option Err
unfolding has_replica changed
set_leader_of m shard_id node_id s =
    if has_replica s node_id
    then (changed m shard_id (record s { leader = node_id }), none)
    else (m, some not_a_replica)

unfoldable pub set_leader : ShardMap → String → String → ShardMap × Option Err
unfolding on_shard set_leader_of
set_leader m shard_id node_id = on_shard m shard_id (set_leader_of m shard_id node_id)

-- The leader is cleared if it is not among the new replicas.
unfoldable pub replaced : ShardInfo → List String → ShardInfo
unfolding is_among
replaced s replicas = record s {
  replicas = replicas;
  leader =
      if str_eq s.leader "" then s.leader else if is_among s.leader replicas then s.leader else "";
}

unfoldable pub set_replicas : ShardMap → String → List String → ShardMap × Option Err
unfolding on_shard replaced changed
set_replicas m shard_id replicas =
    on_shard m shard_id (λ s. (changed m shard_id (replaced s replicas), none))

unfoldable pub set_incoming_replicas : ShardMap → String → List String → ShardMap × Option Err
unfolding on_shard changed
set_incoming_replicas m shard_id incoming =
    on_shard m shard_id
      (λ s. (changed m shard_id (record s { incoming_replicas = incoming }), none))

unfoldable pub clear_bootstrap_source : ShardMap → String → ShardMap × Option Err
unfolding on_shard changed
clear_bootstrap_source m shard_id = on_shard m shard_id (λ s.
    if str_eq s.bootstrap_source_shard_id ""
    then (m, none)
    else (changed m shard_id (record s { bootstrap_source_shard_id = "" }), none))

unfoldable pub remove_shard : ShardMap → String → ShardMap × Option Err
unfolding on_shard
remove_shard m shard_id =
    on_shard m shard_id
      (λ s. (record { version = u64 (m.version + 1); shards = without m.shards shard_id }, none))

hosted_by : String → Pairs ShardInfo → List ShardInfo
unfolding has_replica
hosted_by node_id [] = []
hosted_by node_id ((id, s) ∷ rest) =
    let more = hosted_by node_id rest in if has_replica s node_id then s ∷ more else more

unfoldable pub shards_for_node : ShardMap → String → List ShardInfo
unfolding hosted_by
shards_for_node m node_id = hosted_by node_id m.shards

pub data LeaderFor : Type 0 where
  leader_is : String → LeaderFor
  leader_err : Err → LeaderFor

leader_of : Option ShardInfo → LeaderFor
leader_of none = leader_err not_found
leader_of (some s) = if str_eq s.leader "" then leader_err no_leader else leader_is s.leader

unfoldable pub leader_for : ShardMap → String → LeaderFor
unfolding leader_of get
leader_for m shard_id = leader_of (get m shard_id)

unfoldable pub all_shards : ShardMap → List ShardInfo
all_shards m = map (λ (p : String × ShardInfo). p.1) m.shards

unfoldable pub snapshot : ShardMap → ℕ × List ShardInfo
unfolding all_shards
snapshot m = (m.version, all_shards m)
