-- ===== src/Coordinator/Migration/Splits.antt =====
-- What the second loop of `CheckMigrations` of coordinator/migration.go, over the split shards,
-- leaves alone: all of a shard but its leader and the shard it is filled from.
use doki.Prelude.{
  String, ◌≡◌, refl, ◌∙◌, ap, arith, Bool-cases, inl, inr, ◌⊎◌, List, [], ◌∷◌, Option, none, some,
  eq_iff, str_eq, if◌then◌else◌,
}
use doki.Storage.{lookup}
use doki.ShardMap.{ShardInfo, ShardMap, changed, clear_bootstrap_source}
use doki.ShardMap.Laws.{IsValid, Change-IsValid, clear, on_shard_cases}
use doki.Coordinator.Leader.{LeaderManager, check_and_reassign}
use doki.Coordinator.Leader.Laws.{check_and_reassign-IsValid}
use doki.Coordinator.Leader.Reassign.{
  IsReassigned, HasTerm, led_by, check_and_reassign-IsReassigned,
}
use doki.Coordinator.Migration.{with_shards, after, end_split, check_split, check_splits}
use doki.Coordinator.Migration.Laws.{lookup-changed}

-- What is known of a shard, but for the leader and the source.
unfoldable pub relabelled : String → String → Option ShardInfo → Option ShardInfo
relabelled l b none = none
relabelled l b (some s) = some (record s { leader = l; bootstrap_source_shard_id = b })

pub relabelled-some :
    (l b : String) (o : Option ShardInfo) (t : ShardInfo)
    → relabelled l b o ≡ some t
    → (s : ShardInfo) × (o ≡ some s) × (t ≡ record s { leader = l; bootstrap_source_shard_id = b })
unfolding relabelled
relabelled-some l b none t h = absurd (ground arith)
relabelled-some l b (some s) t h = (s, refl, ground (h, arith))

relabelled_self : (o : Option ShardInfo) → (l : String) × (b : String) × (o ≡ relabelled l b o)
unfolding relabelled
relabelled_self none = ("", "", refl)
relabelled_self (some s) = (s.leader, s.bootstrap_source_shard_id, refl)

relabelled_led :
    (l : String) (o : Option ShardInfo) → (b : String) × (led_by l o ≡ relabelled l b o)
unfolding relabelled led_by
relabelled_led l none = ("", refl)
relabelled_led l (some s) = (s.bootstrap_source_shard_id, refl)

relabelled_twice :
    (l b l2 b2 : String) (o : Option ShardInfo)
    → relabelled l2 b2 (relabelled l b o) ≡ relabelled l2 b2 o
unfolding relabelled
relabelled_twice l b l2 b2 none = refl
relabelled_twice l b l2 b2 (some s) = refl

abbrev pub IsRelabelled : ShardMap → ShardMap → Type 0
IsRelabelled m n =
    (j : String)
    → (l : String) × (b : String) × (lookup n.shards j ≡ relabelled l b (lookup m.shards j))

-- Only leaders, sources and terms differ, and no term is lost.
abbrev pub IsKept : LeaderManager → LeaderManager → Type 0
IsKept lm n =
    (n.membership ≡ lm.membership)
    × IsRelabelled lm.shards n.shards
    × ((j : String) → HasTerm lm j → HasTerm n j)

IsKept-refl : (lm : LeaderManager) → IsKept lm lm
IsKept-refl lm = (refl, λ j. relabelled_self (lookup lm.shards.shards j), λ j h. h)

IsKept-trans : (lm n k : LeaderManager) → IsKept lm n → IsKept n k → IsKept lm k
IsKept-trans lm n k (p, f, g) (q, a, c) = (
  q ∙ p,
  λ j.
      let (l, b, e) = f j in
      let (l2, b2, e2) = a j in
      (
        l2,
        b2,
        e2 ∙ ap (relabelled l2 b2) e ∙ relabelled_twice l b l2 b2 (lookup lm.shards.shards j),
      ),
  λ j h. c j (g j h),
)

pub IsReassigned-IsKept : (lm n : LeaderManager) → IsReassigned lm n → IsKept lm n
IsReassigned-IsKept lm n (p, f, g) = (
  p,
  λ j.
      let (l, e) = f j in
      let (b, e2) = relabelled_led l (lookup lm.shards.shards j) in (l, b, e ∙ e2),
  g,
)

changed-IsRelabelled :
    (m : ShardMap) (id b : String) (s : ShardInfo)
    → lookup m.shards id ≡ some s
    → IsRelabelled m (changed m id (record s { bootstrap_source_shard_id = b }))
unfolding relabelled
changed-IsRelabelled m id b s there j = elim (Bool-cases (str_eq id j)) [
  | inl same ↦ (
    s.leader,
    b,
    ground (
      arith,
      lookup-changed m id (record s { bootstrap_source_shard_id = b }) j,
      eq_iff id j,
      same,
      there,
    ),
  )
  | inr other ↦
      let (l, d, e) = relabelled_self (lookup m.shards j) in
      (
        l,
        d,
        ground (arith, lookup-changed m id (record s { bootstrap_source_shard_id = b }) j, other)
            ∙ e,
      )
]

clear-IsRelabelled : (m : ShardMap) (id : String) → IsRelabelled m (clear_bootstrap_source m id).0
unfolding clear_bootstrap_source
clear-IsRelabelled m id =
    elim (on_shard_cases m id (λ s.
      if str_eq s.bootstrap_source_shard_id ""
      then (m, none)
      else (changed m id (record s { bootstrap_source_shard_id = "" }), none))) [
        | inl (missing, e) ↦ rw e (λ j. relabelled_self (lookup m.shards j))
        | inr (s, there, e) ↦ elim (Bool-cases (str_eq s.bootstrap_source_shard_id "")) [
          | inl already ↦ rw e (rw already (λ j. relabelled_self (lookup m.shards j)))
          | inr set ↦ rw e (rw set (changed-IsRelabelled m id "" s there))
        ]
      ]

with_shards-IsKept :
    (lm : LeaderManager) (m : ShardMap) → IsRelabelled lm.shards m → IsKept lm (with_shards lm m)
unfolding with_shards
with_shards-IsKept lm m h = (refl, h, λ j t. t)

-- What keeps a property of the leader manager through the clearing of a source and a reassignment.
abbrev IsKeptValid : LeaderManager → LeaderManager → Type 0
IsKeptValid lm n = IsKept lm n × (IsValid lm.shards → IsValid n.shards)

cleared_kept :
    (lm : LeaderManager) (id : String)
    → IsKeptValid lm (with_shards lm (clear_bootstrap_source lm.shards id).0)
unfolding with_shards
cleared_kept lm id = (
  with_shards-IsKept lm (clear_bootstrap_source lm.shards id).0 (clear-IsRelabelled lm.shards id),
  λ v. Change-IsValid (clear id) v,
)

reassigned_kept :
    (lm n : LeaderManager) → IsKeptValid lm n → IsKeptValid lm (check_and_reassign n).0
reassigned_kept lm n (kept, valid) = (
  IsKept-trans lm n (check_and_reassign n).0 kept
      (IsReassigned-IsKept n (check_and_reassign n).0 (check_and_reassign-IsReassigned n)),
  λ v. check_and_reassign-IsValid n (valid v),
)

end_split_cases :
    (lm : LeaderManager) (shard : ShardInfo)
    → (end_split lm shard ≡ with_shards lm (clear_bootstrap_source lm.shards shard.id).0)
      ⊎ (end_split lm shard
          ≡ (check_and_reassign (with_shards lm (clear_bootstrap_source lm.shards shard.id).0)).0)
unfolding end_split after
end_split_cases lm shard = ground arith

check_split_cases :
    (lm : LeaderManager) (shard : ShardInfo)
    → (check_split lm shard ≡ lm) ⊎ (check_split lm shard ≡ end_split lm shard)
unfolding check_split
check_split_cases lm shard = ground arith

check_split_kept : (lm : LeaderManager) (shard : ShardInfo) → IsKeptValid lm (check_split lm shard)
check_split_kept lm shard = elim (check_split_cases lm shard) [
  | inl same ↦ rw same (IsKept-refl lm, λ v. v)
  | inr e ↦ elim (end_split_cases lm shard) [
    | inl cleared ↦ rw e (rw cleared (cleared_kept lm shard.id))
    | inr assigned ↦ rw e (
        rw assigned (
          reassigned_kept lm (with_shards lm (clear_bootstrap_source lm.shards shard.id).0)
            (cleared_kept lm shard.id)))
  ]
]

pub check_splits_kept :
    (lm : LeaderManager) (shards : List ShardInfo) → IsKeptValid lm (check_splits lm shards)
unfolding check_splits
check_splits_kept lm [] = (IsKept-refl lm, λ v. v)
check_splits_kept lm (shard ∷ rest) =
    let next = check_split lm shard in
    let (kept, valid) = check_split_kept lm shard in
    let (kept2, valid2) = check_splits_kept next rest in
    (IsKept-trans lm next (check_splits next rest) kept kept2, λ v. valid2 (valid v))
