-- ===== src/Node/Server/Wanted.antt =====
-- The shards that `refetchShardMap` of node/server.go finds a node should host.
use doki.Prelude.{
  String, Bool, true, false, List, [], ◌∷◌, Option, none, some, ◌≡◌, refl, arith, Bool-cases, inl,
  inr, str_eq, ◌||◌, ◌&&◌,
}
use doki.Storage.{Pairs, lookup, with_pair, without}
use doki.Storage.Laws.{lookup-with_pair}
use doki.ShardMap.{ShardInfo, has_replica}
use doki.Node.Server.{Server}
use doki.Node.Server.Refetch.{should_host}

unfoldable pub is_some {ℓ} : {A : Type ℓ} → Option A → Bool
is_some none = false
is_some (some x) = true

-- The node hosts a replica of the shard.
unfoldable pub hosts : Server → String → Bool
unfolding is_some
hosts s id = is_some (lookup s.replicas id)

-- The map lists a shard of this ID with the node among its replicas.
unfoldable pub is_assigned : String → List ShardInfo → String → Bool
unfolding has_replica
is_assigned node_id [] id = false
is_assigned node_id (shard ∷ rest) id =
    (str_eq shard.id id && has_replica shard node_id) || is_assigned node_id rest id

wanted_lem :
    (node_id : String) (found : Pairs ShardInfo) (shards : List ShardInfo) (id : String)
    → is_some (lookup (should_host node_id found shards) id)
      ≡ (is_some (lookup found id) || is_assigned node_id shards id)
unfolding should_host is_assigned is_some
wanted_lem node_id found [] id = ground arith
wanted_lem node_id found (shard ∷ rest) id = ground (
  arith,
  wanted_lem node_id found rest id,
  wanted_lem node_id (with_pair found shard.id shard) rest id,
  lookup-with_pair found shard.id shard id,
)

-- Each shard stands under its ID.
abbrev pub IsFiledUnder : Pairs ShardInfo → Type 0
IsFiledUnder [] = Unit
IsFiledUnder ((id, shard) ∷ rest) = (shard.id ≡ id) × IsFiledUnder rest

filed-without :
    (found : Pairs ShardInfo) (k : String) → IsFiledUnder found → IsFiledUnder (without found k)
unfolding without
filed-without [] k h = tt
filed-without ((j, shard) ∷ rest) k h = elim (Bool-cases (str_eq j k)) [
  | inl same ↦ rw same (filed-without rest k h.1)
  | inr other ↦ rw other (h.0, filed-without rest k h.1)
]

pub wanted_none :
    (node_id : String) (shards : List ShardInfo) (id : String)
    → is_some (lookup (should_host node_id [] shards) id) ≡ is_assigned node_id shards id
unfolding lookup is_some
wanted_none node_id shards id = wanted_lem node_id [] shards id

filed-with_pair :
    (found : Pairs ShardInfo) (shard : ShardInfo)
    → IsFiledUnder found
    → IsFiledUnder (with_pair found shard.id shard)
unfolding with_pair
filed-with_pair found shard h = (refl, filed-without found shard.id h)

pub should_host-IsFiledUnder :
    (node_id : String) (found : Pairs ShardInfo) (shards : List ShardInfo)
    → IsFiledUnder found
    → IsFiledUnder (should_host node_id found shards)
unfolding should_host
should_host-IsFiledUnder node_id found [] h = h
should_host-IsFiledUnder node_id found (shard ∷ rest) h =
    elim (Bool-cases (has_replica shard node_id)) [
      | inl mine ↦ rw mine (
          should_host-IsFiledUnder node_id (with_pair found shard.id shard) rest
            (filed-with_pair found shard h))
      | inr other ↦ rw other (should_host-IsFiledUnder node_id found rest h)
    ]
