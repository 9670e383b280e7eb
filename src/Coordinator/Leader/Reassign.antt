-- ===== src/Coordinator/Leader/Reassign.antt =====
-- What `CheckAndReassign` of coordinator/leader.go leaves alone: all of a shard but its leader.
use doki.Prelude.{
  ℕ, String, ◌≡◌, refl, ◌∙◌, ap, arith, Bool-cases, inl, inr, List, [], ◌∷◌, Option, none, some,
  eq_iff, str_eq,
}
use doki.Storage
use doki.Storage.{lookup}
use doki.Storage.Laws.{lookup-with_pair}
use doki.ShardMap
use doki.ShardMap.Laws.{set_leader_done}
use doki.ShardMap.{ShardInfo, ShardMap, Err, set_leader, set_leader_of, on_shard, changed}
use doki.Coordinator.Leader.{
  LeaderManager, with_leader, assign, check_shard, check_shards, check_and_reassign, pick_candidate,
}
use doki.Coordinator.Leader.Laws.{check_shard_cases}

-- What is known of a shard, but for the leader.
unfoldable pub led_by : String → Option ShardInfo → Option ShardInfo
led_by l none = none
led_by l (some s) = some (record s { leader = l })

pub led_by_self : (o : Option ShardInfo) → (l : String) × (o ≡ led_by l o)
unfolding led_by
led_by_self none = ("", refl)
led_by_self (some s) = (s.leader, refl)

pub led_by_twice : (l k : String) (o : Option ShardInfo) → led_by k (led_by l o) ≡ led_by k o
unfolding led_by
led_by_twice l k none = refl
led_by_twice l k (some s) = refl

abbrev pub HasTerm : LeaderManager → String → Type 0
HasTerm lm id = (t : ℕ) × (lookup lm.terms id ≡ some t)

abbrev pub IsReled : ShardMap → ShardMap → Type 0
IsReled m n = (j : String) → (l : String) × (lookup n.shards j ≡ led_by l (lookup m.shards j))

-- Only leaders and terms differ, and no term is lost.
abbrev pub IsReassigned : LeaderManager → LeaderManager → Type 0
IsReassigned lm n =
    (n.membership ≡ lm.membership)
    × IsReled lm.shards n.shards
    × ((j : String) → HasTerm lm j → HasTerm n j)

IsReled-refl : (m : ShardMap) → IsReled m m
IsReled-refl m j = led_by_self (lookup m.shards j)

pub IsReassigned-refl : (lm : LeaderManager) → IsReassigned lm lm
IsReassigned-refl lm = (refl, IsReled-refl lm.shards, λ j h. h)

IsReassigned-trans :
    (lm n k : LeaderManager) → IsReassigned lm n → IsReassigned n k → IsReassigned lm k
IsReassigned-trans lm n k (p, f, g) (q, a, b) = (
  q ∙ p,
  λ j.
      let (l, e) = f j in
      let (l2, e2) = a j in
      (l2, e2 ∙ ap (led_by l2) e ∙ led_by_twice l l2 (lookup lm.shards.shards j)),
  λ j h. b j (g j h),
)

changed-IsReled :
    (m : ShardMap) (id node : String) (s : ShardInfo)
    → lookup m.shards id ≡ some s
    → IsReled m (changed m id (record s { leader = node }))
unfolding changed led_by
changed-IsReled m id node s there j = elim (Bool-cases (str_eq id j)) [
  | inl same ↦ (
    node,
    ground (
      arith,
      lookup-with_pair m.shards id (record s { leader = node }) j,
      eq_iff id j,
      same,
      there,
    ),
  )
  | inr other ↦
      let (l, e) = led_by_self (lookup m.shards j) in
      (l, ground (arith, lookup-with_pair m.shards id (record s { leader = node }) j, other) ∙ e)
]

set_leader-IsReled :
    (m n : ShardMap) (id node : String) → set_leader m id node ≡ (n, none) → IsReled m n
set_leader-IsReled m n id node h =
    let (s, there, among, e) = set_leader_done m n id node h in
    rw e (changed-IsReled m id node s there)

pub with_term :
    (lm n : LeaderManager) (id : String) (t : ℕ)
    → n.terms ≡ Storage.with_pair lm.terms id t
    → (j : String) → HasTerm lm j
    → HasTerm n j
with_term lm n id t h j (u, there) = elim (Bool-cases (str_eq id j)) [
  | inl same ↦ (t, ground (arith, h, lookup-with_pair lm.terms id t j, same))
  | inr other ↦ (u, ground (arith, h, lookup-with_pair lm.terms id t j, other, there))
]

with_leader-IsReassigned :
    (lm : LeaderManager) (id : String) (t : ℕ) (r : ShardMap × Option Err)
    → ((n : ShardMap) → r ≡ (n, none) → IsReled lm.shards n)
    → IsReassigned lm (with_leader lm id t r).0
unfolding with_leader
with_leader-IsReassigned lm id t (m, some e) h = IsReassigned-refl lm
with_leader-IsReassigned lm id t (m, none) h = (
  refl,
  h m refl,
  with_term lm (record lm { shards = m; terms = Storage.with_pair lm.terms id t }) id t refl,
)

pub set_leader-IsReassigned :
    (lm : LeaderManager) (id node : String) (t : ℕ)
    → IsReassigned lm (with_leader lm id t (set_leader lm.shards id node)).0
set_leader-IsReassigned lm id node t =
    with_leader-IsReassigned lm id t (set_leader lm.shards id node)
      (λ n h. set_leader-IsReled lm.shards n id node h)

assign-IsReassigned :
    (lm : LeaderManager) (shard : ShardInfo) (c : String) (t : ℕ)
    → IsReassigned lm (assign lm shard (c, t)).0
unfolding assign
assign-IsReassigned lm shard c t = elim (Bool-cases (str_eq c "")) [
  | inl nobody ↦ rw nobody (IsReassigned-refl lm)
  | inr named ↦ rw named (set_leader-IsReassigned lm shard.id c t)
]

check_shard-IsReassigned :
    (lm : LeaderManager) (shard : ShardInfo) → IsReassigned lm (check_shard lm shard).0
check_shard-IsReassigned lm shard = elim (check_shard_cases lm shard) [
  | inl same ↦ rw same (IsReassigned-refl lm)
  | inr e ↦
      rw e (assign-IsReassigned lm shard (pick_candidate lm shard).0 (pick_candidate lm shard).1)
]

check_shards-IsReassigned :
    (lm : LeaderManager) (ss : List ShardInfo) → IsReassigned lm (check_shards lm ss).0
unfolding check_shards
check_shards-IsReassigned lm [] = IsReassigned-refl lm
check_shards-IsReassigned lm (s ∷ ss) =
    let next = (check_shard lm s).0 in
    IsReassigned-trans lm next (check_shards next ss).0 (check_shard-IsReassigned lm s)
      (check_shards-IsReassigned next ss)

pub check_and_reassign-IsReassigned :
    (lm : LeaderManager) → IsReassigned lm (check_and_reassign lm).0
unfolding check_and_reassign
check_and_reassign-IsReassigned lm = check_shards-IsReassigned lm (ShardMap.all_shards lm.shards)
