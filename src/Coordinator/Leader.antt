-- ===== src/Coordinator/Leader.antt =====
-- coordinator/leader.go: assignment of a leader to each shard.
-- `CheckAndReassign` and `NotifyLeader` run without other calls in between here. The iteration over
-- the shards goes by the list `shards` of the snapshot that `All` takes.
pub mod Laws
pub mod Pick
pub mod Reassign
pub mod Failover
pub mod Sweep
use doki.Prelude.{
  ℕ, ◌+◌, String, Bool, true, false, List, [], ◌∷◌, Option, none, some, ltb, leb, if◌then◌else◌,
  str_eq, u64, ◌||◌, not,
}
use doki.Storage.{Pairs, lookup, with_pair}
use doki.ShardMap
use doki.ShardMap.{ShardInfo, ShardMap}
use doki.Coordinator.Membership
use doki.Coordinator.Membership.{Membership, NodeStatus}

pub record LeaderManager : Type 0 where
  pub shards : ShardMap
  pub membership : Membership
  pub terms : Pairs ℕ

-- A shard of the cluster configuration.
pub record ShardSpec : Type 0 where
  pub id : String
  pub replicas : List String
  pub initial_leader : String

unfoldable pub new_leader_manager : ShardMap → Membership → LeaderManager
new_leader_manager shards membership = record {
  shards = shards;
  membership = membership;
  terms = [];
}

unfoldable pub initial_info : ShardSpec → ShardInfo
initial_info spec = record {
  id = spec.id;
  replicas = spec.replicas;
  leader = spec.initial_leader;
  bootstrap_source_shard_id = "";
  incoming_replicas = [];
}

-- An error ends the loop; the shards before it stay.
unfoldable pub init_from_config :
    LeaderManager → List ShardSpec → LeaderManager × Option ShardMap.Err
unfolding initial_info
init_from_config lm [] = (lm, none)
init_from_config lm (spec ∷ specs) =
    let (m, failure) = ShardMap.add_shard lm.shards (initial_info spec) in
    let rest =
      init_from_config (record lm { shards = m; terms = with_pair lm.terms spec.id 1 }) specs in
    elim failure [ none ↦ rest | some e ↦ (lm, some e) ]

unfoldable pub term_or_zero : Option ℕ → ℕ
term_or_zero none = 0
term_or_zero (some t) = t

unfoldable pub term_for_shard : LeaderManager → String → ℕ
unfolding term_or_zero
term_for_shard lm shard_id = term_or_zero (lookup lm.terms shard_id)

unfoldable pub init_term : LeaderManager → String → LeaderManager
init_term lm shard_id = elim (lookup lm.terms shard_id) [
  | some _ ↦ lm
  | none ↦ record lm { terms = with_pair lm.terms shard_id 1 }
]

-- `ns, err := Get(id); err == nil && ns.IsAlive`
unfoldable pub is_alive : Option NodeStatus → Bool
is_alive none = false
is_alive (some ns) = ns.is_alive

-- The best candidate so far: its ID, "" for none, and its version.
abbrev pub Best : Type 0
Best = String × ℕ

-- One round of the loop of `pickCandidate`.
unfoldable pub consider : LeaderManager → ShardInfo → Best → String → Best
unfolding is_alive Membership.get
consider lm shard best replica_id =
    let v = Membership.version_for_shard lm.membership replica_id shard.id in
    if str_eq replica_id shard.leader
    then best
    else if not (is_alive (Membership.get lm.membership replica_id))
    then best
    else if str_eq best.0 "" || ltb best.1 v
    then (replica_id, v)
    else best

unfoldable pub best_of : LeaderManager → ShardInfo → Best → List String → Best
unfolding consider
best_of lm shard best [] = best
best_of lm shard best (r ∷ rs) = best_of lm shard (consider lm shard best r) rs

unfoldable pub pick_candidate : LeaderManager → ShardInfo → String × ℕ
unfolding best_of
pick_candidate lm shard =
    let best = best_of lm shard ("", 0) shard.replicas in
    if str_eq best.0 "" then ("", 0) else (best.0, u64 (term_for_shard lm shard.id + 1))

-- The change of a leader and its term, once `SetLeader` has answered.
unfoldable pub with_leader :
    LeaderManager → String → ℕ → ShardMap × Option ShardMap.Err → LeaderManager × Bool
with_leader lm shard_id term (m, some e) = (lm, false)
with_leader lm shard_id term (m, none) =
    (record lm { shards = m; terms = with_pair lm.terms shard_id term }, true)

unfoldable pub assign : LeaderManager → ShardInfo → String × ℕ → LeaderManager × Bool
unfolding with_leader
assign lm shard (candidate, term) =
    if str_eq candidate ""
    then (lm, false)
    else with_leader lm shard.id term (ShardMap.set_leader lm.shards shard.id candidate)

-- One round of `CheckAndReassign`; the flag says whether the leader changed.
unfoldable pub check_shard : LeaderManager → ShardInfo → LeaderManager × Bool
unfolding assign is_alive Membership.get
check_shard lm shard =
    if str_eq shard.leader "" || not (is_alive (Membership.get lm.membership shard.leader))
    then assign lm shard (pick_candidate lm shard)
    else (lm, false)

unfoldable pub check_shards : LeaderManager → List ShardInfo → LeaderManager × List String
unfolding check_shard
check_shards lm [] = (lm, [])
check_shards lm (s ∷ ss) =
    let (next, did) = check_shard lm s in
    let (last, more) = check_shards next ss in (last, if did then s.id ∷ more else more)

unfoldable pub check_and_reassign : LeaderManager → LeaderManager × List String
unfolding check_shards
check_and_reassign lm = check_shards lm (ShardMap.all_shards lm.shards)

unfoldable pub notify_leader : LeaderManager → String → String → ℕ → LeaderManager × Bool
unfolding with_leader
notify_leader lm shard_id leader_id term = elim (lookup lm.terms shard_id) [
  | none ↦ (lm, false)
  | some current ↦
      if leb term current
      then (lm, false)
      else with_leader lm shard_id term (ShardMap.set_leader lm.shards shard_id leader_id)
]
