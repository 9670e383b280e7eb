-- ===== src/Coordinator/Leader/Pick.antt =====
-- The candidate that `pickCandidate` of coordinator/leader.go chooses.
use doki.Prelude.{
  ℕ, ◌+◌, ◌≤◌, String, ◌≡◌, ◌≢◌, refl, ap, arith, true, Bool-cases, inl, inr, ◌⊎◌, List, [], ◌∷◌,
  u64, eq_iff, str_eq, All, All-map, All-pair, str_eq_refl,
}
use doki.ShardMap.{ShardInfo, is_among}
use doki.Coordinator.Membership
use doki.Coordinator.Leader.{
  LeaderManager, Best, is_alive, consider, best_of, pick_candidate, term_for_shard,
}

abbrev pub version_of : LeaderManager → ShardInfo → String → ℕ
version_of lm shard r = Membership.version_for_shard lm.membership r shard.id

-- A replica that may take over: another than the leader, and alive.
abbrev pub IsEligible : LeaderManager → ShardInfo → String → Type 0
IsEligible lm shard r = (r ≢ shard.leader) × (is_alive (Membership.get lm.membership r) ≡ true)

abbrev pub IsNamed : String → Type 0
IsNamed r = r ≢ ""

module _ (lm : LeaderManager) (shard : ShardInfo) where
  -- No candidate, or an eligible replica with its version.
  abbrev pub IsCandidate : Best → Type 0
  IsCandidate b =
      (b.0 ≡ "")
      ⊎ ((is_among b.0 shard.replicas ≡ true)
          × IsEligible lm shard b.0
          × (b.1 ≡ version_of lm shard b.0))

  consider-IsCandidate :
      (b : Best) (r : String)
      → is_among r shard.replicas ≡ true
      → IsCandidate b
      → IsCandidate (consider lm shard b r)
  unfolding consider
  consider-IsCandidate b r among c = ground (arith, eq_iff r shard.leader)

  -- A candidate is replaced only by one with a higher version.
  abbrev pub IsAtLeast : ℕ → Best → Type 0
  IsAtLeast v b = (b.0 ≢ "") × (v ≤ b.1)

  consider-IsAtLeast :
      (v : ℕ) (b : Best) (r : String) → r ≢ "" → IsAtLeast v b → IsAtLeast v (consider lm shard b r)
  unfolding consider
  consider-IsAtLeast v b r named c = ground (arith, eq_iff b.0 "")

  consider_eligible :
      (b : Best) (r : String)
      → r ≢ ""
      → IsEligible lm shard r
      → IsAtLeast (version_of lm shard r) (consider lm shard b r)
  unfolding consider
  consider_eligible b r named e = ground (arith, eq_iff b.0 "", eq_iff r shard.leader)

  abbrev pub IsReplica : String → Type 0
  IsReplica r = (is_among r shard.replicas ≡ true) × (r ≢ "")

  pub best_of-IsCandidate :
      (b : Best) (rs : List String)
      → All IsReplica rs
      → IsCandidate b
      → IsCandidate (best_of lm shard b rs)
  unfolding best_of
  best_of-IsCandidate b [] h c = c
  best_of-IsCandidate b (r ∷ rs) h c =
      best_of-IsCandidate (consider lm shard b r) rs h.1 (consider-IsCandidate b r h.0.0 c)

  best_of-IsAtLeast :
      (v : ℕ) (b : Best) (rs : List String)
      → All IsReplica rs
      → IsAtLeast v b
      → IsAtLeast v (best_of lm shard b rs)
  unfolding best_of
  best_of-IsAtLeast v b [] h c = c
  best_of-IsAtLeast v b (r ∷ rs) h c =
      best_of-IsAtLeast v (consider lm shard b r) rs h.1 (consider-IsAtLeast v b r h.0.1 c)

  pub best_of_eligible :
      (b : Best) (r : String) (rs : List String)
      → All IsReplica rs
      → is_among r rs ≡ true
      → IsEligible lm shard r
      → IsAtLeast (version_of lm shard r) (best_of lm shard b rs)
  unfolding best_of is_among
  best_of_eligible b r [] h among e = absurd (ground arith)
  best_of_eligible b r (s ∷ rs) h among e = elim (Bool-cases (str_eq s r)) [
    | inl same ↦
        let q : s ≡ r = (eq_iff s r).0 same in
        best_of-IsAtLeast (version_of lm shard r) (consider lm shard b s) rs h.1
          (rw q (consider_eligible b r (rw q at (h.0.1)) e))
    | inr other ↦ best_of_eligible (consider lm shard b s) r rs h.1 (ground (among, other, arith)) e
  ]

pick_lem :
    (lm : LeaderManager) (shard : ShardInfo) (candidate : String) (term : ℕ)
    → candidate ≢ ""
    → pick_candidate lm shard ≡ (candidate, term)
    → ((best_of lm shard ("", 0) shard.replicas).0 ≡ candidate)
      × (term ≡ u64 (term_for_shard lm shard.id + 1))
unfolding pick_candidate
pick_lem lm shard candidate term named h = ground arith

pub All-among : (xs : List String) → All (λ r. is_among r xs ≡ true) xs
unfolding is_among
All-among [] = tt
All-among (x ∷ xs) = (
  ground (arith, str_eq_refl x),
  All-map (λ r. is_among r xs ≡ true) (λ r. is_among r (x ∷ xs) ≡ true) xs
      (λ r h. ground (h, arith)) (All-among xs),
)

-- A picked candidate is an alive replica of the shard that does not lead it, in the term after the
-- coordinator's, and no other such replica has reported a higher version, if all have names.
pub pick_candidate_best :
    (lm : LeaderManager) (shard : ShardInfo) (candidate other : String) (term : ℕ)
    → candidate ≢ ""
    → All IsNamed shard.replicas
    → pick_candidate lm shard ≡ (candidate, term)
    → is_among other shard.replicas ≡ true
    → IsEligible lm shard other
    → (is_among candidate shard.replicas ≡ true)
      × IsEligible lm shard candidate
      × (term ≡ u64 (term_for_shard lm shard.id + 1))
      × (version_of lm shard other ≤ version_of lm shard candidate)
pick_candidate_best lm shard candidate other term named names h among e =
    let rs = shard.replicas in
    let best = best_of lm shard ("", 0) rs in
    let p = pick_lem lm shard candidate term named h in
    let all = All-pair (λ r. is_among r rs ≡ true) IsNamed rs (All-among rs) names in
    let least = best_of_eligible lm shard ("", 0) other rs all among e in
    elim (best_of-IsCandidate lm shard ("", 0) rs all (inl refl)) [
      | inl nobody ↦ absurd (least.0 nobody)
      | inr (there, fit, version) ↦ (
        rw p.0 at there,
        rw p.0 at fit,
        p.1,
        omega (arith, least.1, version, ap (version_of lm shard) p.0),
      )
    ]
