-- ===== src/Coordinator/Leader/Failover.antt =====
-- One round of `CheckAndReassign` of coordinator/leader.go finds a leader where there is one to find.
use doki.Prelude.{
  ℕ, String, true, false, ◌≡◌, ◌≢◌, refl, ◌∙◌, arith, Bool-cases, inl, inr, ◌⊎◌, List, [], ◌∷◌,
  some, eq_iff, str_eq, str_eq_refl, str_eq_of_ne, u64, ◌+◌, All, All-pair,
}
use doki.Storage.{lookup}
use doki.Storage.Laws.{lookup-with_pair}
use doki.ShardMap.{ShardInfo, is_among, changed, set_leader, set_leader_of, on_shard, has_replica}
use doki.ShardMap.Laws.{IsValid}
use doki.Coordinator.Membership
use doki.Coordinator.Leader.{
  LeaderManager, is_alive, best_of, pick_candidate, term_for_shard, with_leader, assign,
  check_shard,
}
use doki.Coordinator.Leader.Pick.{
  IsEligible, IsNamed, All-among, best_of-IsCandidate, best_of_eligible,
}

-- The shard is led by a replica that is alive.
abbrev pub IsServed : LeaderManager → String → Type 0
IsServed lm id =
    (s : ShardInfo) × (lookup lm.shards.shards id ≡ some s)
    × (is_among s.leader s.replicas ≡ true)
    × (is_alive (Membership.get lm.membership s.leader) ≡ true)

-- The candidate that is picked where a replica is eligible.
picked :
    (lm : LeaderManager) (shard : ShardInfo) (other : String)
    → All IsNamed shard.replicas
    → is_among other shard.replicas ≡ true
    → IsEligible lm shard other
    → (c : String) × (term : ℕ) × (pick_candidate lm shard ≡ (c, term))
      × (c ≢ "")
      × (is_among c shard.replicas ≡ true)
      × (is_alive (Membership.get lm.membership c) ≡ true)
unfolding pick_candidate
picked lm shard other names among e =
    let rs = shard.replicas in
    let best = best_of lm shard ("", 0) rs in
    let all = All-pair (λ r. is_among r rs ≡ true) IsNamed rs (All-among rs) names in
    let least = best_of_eligible lm shard ("", 0) other rs all among e in
    elim (best_of-IsCandidate lm shard ("", 0) rs all (inl refl)) [
      | inl nobody ↦ absurd (least.0 nobody)
      | inr (there, fit, version) ↦ (
        best.0,
        u64 (term_for_shard lm shard.id + 1),
        rw (str_eq_of_ne best.0 "" least.0) refl,
        least.0,
        there,
        fit.1,
      )
    ]

assigned :
    (lm : LeaderManager) (shard : ShardInfo) (c : String) (term : ℕ)
    → lookup lm.shards.shards shard.id ≡ some shard
    → c ≢ ""
    → is_among c shard.replicas ≡ true
    → is_alive (Membership.get lm.membership c) ≡ true
    → IsServed (assign lm shard (c, term)).0 shard.id
unfolding assign with_leader set_leader set_leader_of on_shard has_replica changed
assigned lm shard c term there named among alive = (
  record shard { leader = c },
  ground (
    arith,
    there,
    among,
    str_eq_of_ne c "" named,
    lookup-with_pair lm.shards.shards shard.id (record shard { leader = c }) shard.id,
    str_eq_refl shard.id,
  ),
  among,
  ground (arith, there, among, str_eq_of_ne c "" named, alive),
)

-- A shard needs a leader, or the one that it has is alive.
check_shard_needs :
    (lm : LeaderManager) (shard : ShardInfo)
    → ((check_shard lm shard ≡ (lm, false))
        × (is_alive (Membership.get lm.membership shard.leader) ≡ true)
        × (shard.leader ≢ ""))
      ⊎ ((check_shard lm shard ≡ assign lm shard (pick_candidate lm shard))
          × ((shard.leader ≡ "") ⊎ (is_alive (Membership.get lm.membership shard.leader) ≡ false)))
unfolding check_shard
check_shard_needs lm shard = ground (arith, eq_iff shard.leader "")

among_named : (r : String) (rs : List String) → All IsNamed rs → is_among r rs ≡ true → r ≢ ""
unfolding is_among
among_named r [] names h e = ground (h, arith)
among_named r (x ∷ xs) names h e = elim (Bool-cases (str_eq x r)) [
  | inl same ↦ names.0 ((eq_iff x r).0 same ∙ e)
  | inr other ↦ among_named r xs names.1 (ground (h, other, arith)) e
]

not_leader :
    (lm : LeaderManager) (shard : ShardInfo) (other : String)
    → other ≢ ""
    → is_alive (Membership.get lm.membership other) ≡ true
    → (shard.leader ≡ "") ⊎ (is_alive (Membership.get lm.membership shard.leader) ≡ false)
    → other ≢ shard.leader
not_leader lm shard other named alive (inl nobody) e = named (e ∙ nobody)
not_leader lm shard other named alive (inr dead) e = ground (alive, dead, e, arith)

-- One round serves the shard, if it is led by one of its replicas, or by nobody.
pub check_shard-IsServed :
    (lm : LeaderManager) (shard : ShardInfo) (other : String)
    → IsValid lm.shards
    → lookup lm.shards.shards shard.id ≡ some shard
    → All IsNamed shard.replicas
    → is_among other shard.replicas ≡ true
    → is_alive (Membership.get lm.membership other) ≡ true
    → IsServed (check_shard lm shard).0 shard.id
unfolding has_replica
check_shard-IsServed lm shard other v there names among alive = elim (check_shard_needs lm shard) [
  | inl (e, lives, named) ↦ elim ((v shard.id shard there).1) [
    | inl nobody ↦ absurd (named nobody)
    | inr leads ↦ rw e (shard, there, leads, lives)
  ]
  | inr (e, needs) ↦
      let apart =
        not_leader lm shard other (among_named other shard.replicas names among) alive needs in
      let (c, term, pick, named, in_replicas, lives) =
        picked lm shard other names among (apart, alive) in
      rw e (rw pick (assigned lm shard c term there named in_replicas lives))
]
