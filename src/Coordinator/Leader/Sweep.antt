-- ===== src/Coordinator/Leader/Sweep.antt =====
-- `CheckAndReassign` of coordinator/leader.go serves every shard that can be served.
use doki.Prelude.{
  ℕ, String, true, false, ◌≡◌, refl, ◌∙◌, ap, arith, Bool-cases, inl, inr, [], ◌∷◌, Option, none,
  some, eq_iff, str_eq, str_eq_refl, All, map,
}
use mathlib.Core.Path.{subst}
use doki.Storage.{Pairs, lookup}
use doki.Storage.Laws.{lookup-with_pair, IsKeyed}
use doki.ShardMap
use doki.ShardMap.{
  ShardInfo, ShardMap, is_among, changed, set_leader, set_leader_of, on_shard, has_replica,
}
use doki.ShardMap.Laws.{IsValid, on_shard_cases}
use doki.Coordinator.Leader.Laws.{check_shard_cases, check_shard-IsValid}
use doki.Coordinator.Membership
use doki.Coordinator.Leader.{
  LeaderManager, is_alive, pick_candidate, with_leader, assign, check_shard, check_shards,
  check_and_reassign,
}
use doki.Coordinator.Leader.Pick.{IsNamed}
use doki.Coordinator.Leader.Failover.{IsServed, check_shard-IsServed}

-- What a round leaves of another shard.
abbrev IsAside : String → LeaderManager → LeaderManager → Type 0
IsAside j lm n =
    (n.membership ≡ lm.membership) × (lookup n.shards.shards j ≡ lookup lm.shards.shards j)

set_leader_aside :
    (m : ShardMap) (id c j : String)
    → str_eq id j ≡ false
    → lookup (set_leader m id c).0.shards j ≡ lookup m.shards j
unfolding set_leader set_leader_of changed
set_leader_aside m id c j other = elim (on_shard_cases m id (set_leader_of m id c)) [
  | inl (missing, e) ↦ rw e refl
  | inr (s, there, e) ↦
      rw e (ground (arith, other, lookup-with_pair m.shards id (record s { leader = c }) j))
]

with_leader-IsAside :
    (lm : LeaderManager) (id : String) (term : ℕ) (r : ShardMap × Option ShardMap.Err) (j : String)
    → lookup r.0.shards j ≡ lookup lm.shards.shards j
    → IsAside j lm (with_leader lm id term r).0
unfolding with_leader
with_leader-IsAside lm id term (m, some e) j h = (refl, refl)
with_leader-IsAside lm id term (m, none) j h = (refl, h)

assign-IsAside :
    (lm : LeaderManager) (shard : ShardInfo) (p : String × ℕ) (j : String)
    → str_eq shard.id j ≡ false
    → IsAside j lm (assign lm shard p).0
unfolding assign
assign-IsAside lm shard (c, term) j other = elim (Bool-cases (str_eq c "")) [
  | inl nobody ↦ rw nobody (refl, refl)
  | inr named ↦ rw named (
      with_leader-IsAside lm shard.id term (set_leader lm.shards shard.id c) j
        (set_leader_aside lm.shards shard.id c j other))
]

check_shard-IsAside :
    (lm : LeaderManager) (shard : ShardInfo) (j : String)
    → str_eq shard.id j ≡ false
    → IsAside j lm (check_shard lm shard).0
check_shard-IsAside lm shard j other = elim (check_shard_cases lm shard) [
  | inl same ↦ rw same (refl, refl)
  | inr e ↦ rw e (assign-IsAside lm shard (pick_candidate lm shard) j other)
]

-- The pairs stand under their shards' IDs.
abbrev IsFiled : String × ShardInfo → Type 0
IsFiled p = p.1.id ≡ p.0

abbrev info_of : String × ShardInfo → ShardInfo
info_of p = p.1

All-IsFiled :
    (ps : Pairs ShardInfo)
    → IsKeyed ps
    → ((id : String) (s : ShardInfo) → lookup ps id ≡ some s → s.id ≡ id)
    → All IsFiled ps
unfolding lookup
All-IsFiled [] keyed h = tt
All-IsFiled ((k, s) ∷ ps) keyed h = (
  h k s (ground (arith, str_eq_refl k)),
  All-IsFiled ps keyed.1 (λ id t there. h id t (ground (arith, there, keyed.0, eq_iff k id))),
)

check_shards-IsAside :
    (lm : LeaderManager) (ps : Pairs ShardInfo) (j : String)
    → All IsFiled ps
    → lookup ps j ≡ none
    → IsAside j lm (check_shards lm (map info_of ps)).0
unfolding check_shards lookup
check_shards-IsAside lm [] j filed h = (refl, refl)
check_shards-IsAside lm ((k, s) ∷ ps) j filed h =
    let next = (check_shard lm s).0 in
    let (a, b) = check_shard-IsAside lm s j (ground (h, arith, filed.0)) in
    let (c, d) = check_shards-IsAside next ps j filed.1 (ground (h, arith)) in (c ∙ a, d ∙ b)

aside-IsServed :
    (id : String) (lm n : LeaderManager) → IsAside id lm n → IsServed lm id → IsServed n id
unfolding Membership.get
aside-IsServed id lm n (p, q) (s, there, among, alive) = (s, q ∙ there, among, rw p alive)

check_shards-IsServed :
    (lm : LeaderManager) (ps : Pairs ShardInfo) (id : String) (s : ShardInfo) (other : String)
    → IsValid lm.shards
    → IsKeyed ps
    → All IsFiled ps
    → lookup ps id ≡ some s
    → lookup lm.shards.shards id ≡ some s
    → All IsNamed s.replicas
    → is_among other s.replicas ≡ true
    → is_alive (Membership.get lm.membership other) ≡ true
    → IsServed (check_shards lm (map info_of ps)).0 id
unfolding check_shards lookup Membership.get
check_shards-IsServed lm [] id s other v keyed filed h there names among alive =
    absurd (ground (h, arith))
check_shards-IsServed lm ((k, t) ∷ ps) id s other v keyed filed h there names among alive =
    let next = (check_shard lm t).0 in
    elim (Bool-cases (str_eq k id)) [
      | inl same ↦
          let q : k ≡ id = (eq_iff k id).0 same in
          let r : t ≡ s = ground (h, same, arith) in
          let i : s.id ≡ id = (v id s there).0 in
          let served : IsServed (check_shard lm s).0 s.id =
            check_shard-IsServed lm s other v (ap (lookup lm.shards.shards) i ∙ there) names among
              alive in
          aside-IsServed id next (check_shards next (map info_of ps)).0
            (check_shards-IsAside next ps id filed.1 (rw q at (keyed.0)))
            (rw r (subst (IsServed (check_shard lm s).0) i served))
      | inr apart ↦
          let aside = check_shard-IsAside lm t id (ground (apart, arith, filed.0)) in
          check_shards-IsServed next ps id s other (check_shard-IsValid lm t v) keyed.1 filed.1
            (ground (h, apart, arith)) (aside.1 ∙ there) names among (rw (aside.0) alive)
    ]

-- After a reassignment a shard of which any replica is alive is led by a replica that is alive, if
-- every shard stood under its ID, with a leader among its replicas or none, and the shard's
-- replicas have names.
pub check_and_reassign-IsServed :
    (lm : LeaderManager) (id : String) (s : ShardInfo) (other : String)
    → IsValid lm.shards
    → IsKeyed lm.shards.shards
    → lookup lm.shards.shards id ≡ some s
    → All IsNamed s.replicas
    → is_among other s.replicas ≡ true
    → is_alive (Membership.get lm.membership other) ≡ true
    → IsServed (check_and_reassign lm).0 id
unfolding check_and_reassign ShardMap.all_shards
check_and_reassign-IsServed lm id s other v keyed there names among alive =
    check_shards-IsServed lm lm.shards.shards id s other v keyed
      (All-IsFiled lm.shards.shards keyed (λ j t h. (v j t h).0)) there there names among alive
