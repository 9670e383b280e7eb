-- ===== src/Coordinator/Leader/Laws.antt =====
-- What coordinator/leader.go promises about the leaders it assigns.
use doki.Prelude.{
  ℕ, ◌<◌, String, ◌≡◌, ◌≢◌, ◌∙◌, arith, true, false, Bool-cases, inl, inr, ◌⊎◌, List, [], ◌∷◌,
  Option, none, some, str_eq, str_eq_refl,
}
use doki.Storage.{Pairs, lookup, with_pair}
use doki.Storage.Laws.{lookup-with_pair}
use doki.ShardMap
use doki.ShardMap.{ShardInfo, ShardMap, is_among}
use doki.ShardMap.Laws.{IsValid, lead, Change-IsValid, set_leader-leader_for}
use doki.Coordinator.Leader.{
  LeaderManager, pick_candidate, term_for_shard, with_leader, assign, check_shard, check_shards,
  check_and_reassign, notify_leader,
}

pub with_leader-IsValid :
    (lm : LeaderManager) (id : String) (term : ℕ) (r : ShardMap × Option ShardMap.Err)
    → IsValid lm.shards
    → IsValid r.0
    → IsValid (with_leader lm id term r).0.shards
unfolding with_leader
with_leader-IsValid lm id term (m, some e) v w = v
with_leader-IsValid lm id term (m, none) v w = w

assign-IsValid :
    (lm : LeaderManager) (shard : ShardInfo) (c : String) (term : ℕ)
    → IsValid lm.shards
    → IsValid (assign lm shard (c, term)).0.shards
unfolding assign
assign-IsValid lm shard c term v = elim (Bool-cases (str_eq c "")) [
  | inl nobody ↦ rw nobody v
  | inr named ↦ rw named (
      with_leader-IsValid lm shard.id term (ShardMap.set_leader lm.shards shard.id c) v
        (Change-IsValid (lead shard.id c) v))
]

pub check_shard_cases :
    (lm : LeaderManager) (shard : ShardInfo)
    → (check_shard lm shard ≡ (lm, false))
      ⊎ (check_shard lm shard ≡ assign lm shard (pick_candidate lm shard))
unfolding check_shard
check_shard_cases lm shard = ground arith

pub check_shard-IsValid :
    (lm : LeaderManager) (shard : ShardInfo)
    → IsValid lm.shards
    → IsValid (check_shard lm shard).0.shards
check_shard-IsValid lm shard v = elim (check_shard_cases lm shard) [
  | inl same ↦ rw same v
  | inr e ↦ rw e (assign-IsValid lm shard (pick_candidate lm shard).0 (pick_candidate lm shard).1 v)
]

check_shards-IsValid :
    (lm : LeaderManager) (ss : List ShardInfo)
    → IsValid lm.shards
    → IsValid (check_shards lm ss).0.shards
unfolding check_shards
check_shards-IsValid lm [] v = v
check_shards-IsValid lm (s ∷ ss) v =
    check_shards-IsValid (check_shard lm s).0 ss (check_shard-IsValid lm s v)

-- Reassignment leaves every shard under its ID with a leader among its replicas, or none, if this
-- was so before.
pub check_and_reassign-IsValid :
    (lm : LeaderManager) → IsValid lm.shards → IsValid (check_and_reassign lm).0.shards
unfolding check_and_reassign
check_and_reassign-IsValid lm v = check_shards-IsValid lm (ShardMap.all_shards lm.shards) v

with_leader_done :
    (lm n : LeaderManager) (id : String) (term : ℕ) (r : ShardMap × Option ShardMap.Err)
    → with_leader lm id term r ≡ (n, true)
    → (r ≡ (n.shards, none)) × (n.terms ≡ with_pair lm.terms id term)
unfolding with_leader
with_leader_done lm n id term r h = ground arith

notify_leader_cases :
    (lm n : LeaderManager) (id node : String) (term : ℕ)
    → notify_leader lm id node term ≡ (n, true)
    → (term_for_shard lm id < term)
      × (with_leader lm id term (ShardMap.set_leader lm.shards id node) ≡ (n, true))
unfolding notify_leader term_for_shard
notify_leader_cases lm n id node term h = ground arith

term_set :
    (n : LeaderManager) (terms : Pairs ℕ) (id : String) (term : ℕ)
    → n.terms ≡ with_pair terms id term
    → term_for_shard n id ≡ term
unfolding term_for_shard
term_set n terms id term h = ground (h, arith, lookup-with_pair terms id term id, str_eq_refl id)

-- An accepted election result is of a higher term than the coordinator knew, names a replica of the
-- shard, and sets the shard's term and leader.
pub notify_leader_accepted :
    (lm n : LeaderManager) (id node : String) (term : ℕ)
    → node ≢ ""
    → notify_leader lm id node term ≡ (n, true)
    → (term_for_shard lm id < term)
      × (term_for_shard n id ≡ term)
      × (ShardMap.leader_for n.shards id ≡ ShardMap.leader_is node)
      × ((s : ShardInfo) × (lookup lm.shards.shards id ≡ some s)
          × (ShardMap.has_replica s node ≡ true))
notify_leader_accepted lm n id node term named h =
    let c = notify_leader_cases lm n id node term h in
    let d = with_leader_done lm n id term (ShardMap.set_leader lm.shards id node) c.1 in
    let e = set_leader-leader_for lm.shards n.shards id node id named d.0 in
    (c.0, term_set n lm.terms id term d.1, e.1 ∙ rw (str_eq_refl id), e.0)

-- An election result that is not accepted changes nothing.
pub notify_leader_refused :
    (lm : LeaderManager) (id node : String) (term : ℕ)
    → (notify_leader lm id node term).1 ≡ false
    → (notify_leader lm id node term).0 ≡ lm
unfolding notify_leader with_leader
notify_leader_refused lm id node term h = ground arith
