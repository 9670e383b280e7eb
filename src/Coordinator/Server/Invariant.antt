-- ===== src/Coordinator/Server/Invariant.antt =====
-- No call of coordinator/server.go or coordinator/grpc.go and no tick breaks the managers' state.
use doki.Prelude.{
  ℕ, String, ◌≡◌, refl, arith, Bool-cases, Option-cases, inl, inr, ◌⊎◌, List, str_eq, ◌||◌, All,
}
use doki.Storage.{lookup, with_pair}
use doki.ShardMap
use doki.ShardMap.{ShardInfo, ShardMap, Err, add_shard, changed, already_exists}
use doki.ShardMap.Laws.{Change-IsValid, lead}
use doki.Coordinator.Membership
use doki.Coordinator.Membership.{Membership}
use doki.Coordinator.Leader
use doki.Coordinator.Leader.{LeaderManager, init_from_config, init_term, with_leader}
use doki.Coordinator.Leader.Laws.{with_leader-IsValid}
use doki.Coordinator.Leader.Reassign.{HasTerm, set_leader-IsReassigned}
use doki.Coordinator.Migration.{MigrationManager, start_migration}
use doki.Coordinator.Migration.Splits.{IsReassigned-IsKept}
use doki.Coordinator.Migration.Sound.{
  IsSound, kept-IsSound, start_migration-IsSound, reassigned-IsSound, replicas_or_none,
}
use doki.Coordinator.Migration.Checks.{check_migrations-IsSound}
use doki.Config.{ClusterConfig}
use doki.Coordinator.Server.{
  Server, new_server, init, with_leaders, with_membership, heartbeat, notify_leader,
  handle_admin_add_node, handle_admin_migrate_shard, handle_admin_split_shard, health_tick,
  split_info, with_split, split_shard, refresh,
}
use doki.Coordinator.Server.Reach.{
  Step, Reachable, beat, notify, add_node, migrate, split, tick, start, step, IsLedSpec,
  IsLedConfig,
}
use doki.Coordinator.Server.Added.{
  add_shard_done, grown-IsSound, with_first_term-IsSound, init_from_config-IsSound,
}

new_server-IsSound : (cfg : ClusterConfig) → IsSound (new_server cfg).migration
unfolding new_server lookup ShardMap.new Leader.new_leader_manager replicas_or_none
new_server-IsSound cfg = (
  λ id s h. absurd (ground (h, arith)),
  λ id s h. absurd (ground (h, arith)),
  λ id rs h. absurd (ground (h, arith)),
  tt,
)

init_cases :
    (s : Server)
    → (init s).0.migration
      ≡ record s.migration { leader = (init_from_config s.migration.leader s.cfg.shards).0 }
unfolding init with_leaders
init_cases s = ground arith

configured : (cfg : ClusterConfig) → IsLedConfig cfg → All IsLedSpec (new_server cfg).cfg.shards
unfolding new_server
configured cfg led = led

init-IsSound : (cfg : ClusterConfig) → IsLedConfig cfg → IsSound (init (new_server cfg)).0.migration
init-IsSound cfg led = rw (init_cases (new_server cfg)) (
    init_from_config-IsSound (new_server cfg).migration (new_server cfg).cfg.shards
      (configured cfg led) (new_server-IsSound cfg))

with_membership-IsSound :
    (s : Server) (m : Membership) → IsSound s.migration → IsSound (with_membership s m).migration
unfolding with_membership with_leaders
with_membership-IsSound s m sound = sound

heartbeat_cases :
    (now : ℕ) (s : Server) (id : String) (shards : List Membership.ShardStatus)
    → (m : Membership) × ((heartbeat now s id shards).0 ≡ with_membership s m)
unfolding heartbeat
heartbeat_cases now s id shards =
    let m = (Membership.record_heartbeat now s.migration.leader.membership id shards).0 in
    (m, ground arith)

notify_cases :
    (lm : LeaderManager) (id node : String) (term : ℕ)
    → ((Leader.notify_leader lm id node term).0 ≡ lm)
      ⊎ ((Leader.notify_leader lm id node term).0
          ≡ (with_leader lm id term (ShardMap.set_leader lm.shards id node)).0)
unfolding Leader.notify_leader
notify_cases lm id node term = ground arith

notify-IsSound :
    (mm : MigrationManager) (id node : String) (term : ℕ)
    → IsSound mm
    → IsSound (record mm { leader = (Leader.notify_leader mm.leader id node term).0 })
notify-IsSound mm id node term sound = elim (notify_cases mm.leader id node term) [
  | inl same ↦ rw same sound
  | inr e ↦
      let r = ShardMap.set_leader mm.leader.shards id node in
      let n = (with_leader mm.leader id term r).0 in
      rw e (
        kept-IsSound mm n
          (IsReassigned-IsKept mm.leader n (set_leader-IsReassigned mm.leader id node term))
          (with_leader-IsValid mm.leader id term r sound.0 (Change-IsValid (lead id node) sound.0))
          sound)
]

add_node_cases :
    (s : Server) (id address : String)
    → ((handle_admin_add_node s id address).0 ≡ s)
      ⊎ ((m : Membership) × ((handle_admin_add_node s id address).0 ≡ with_membership s m))
unfolding handle_admin_add_node
add_node_cases s id address =
    let m =
      Membership.add_node s.migration.leader.membership (record { id = id; address = address }) in
    elim (Bool-cases (str_eq id "" || str_eq address "")) [
      | inl empty ↦ inl (rw empty refl)
      | inr given ↦ inr (m, rw given refl)
    ]

migrate_cases :
    (s : Server) (id : String) (fresh : List String)
    → ((handle_admin_migrate_shard s id fresh).0 ≡ s)
      ⊎ ((handle_admin_migrate_shard s id fresh).0.migration
          ≡ (start_migration s.migration id fresh).0)
unfolding handle_admin_migrate_shard
migrate_cases s id fresh = ground arith

split_cases :
    (s : Server) (source id : String) (fresh : List String)
    → ((handle_admin_split_shard s source id fresh).0 ≡ s)
      ⊎ ((handle_admin_split_shard s source id fresh).0
          ≡ (with_split s id (add_shard s.migration.leader.shards (split_info source id fresh))).0)
unfolding handle_admin_split_shard split_shard
split_cases s source id fresh = ground arith

-- A term that is there for a shard the map did not have is kept.
init_term_cases :
    (lm : LeaderManager) (id : String)
    → (HasTerm lm id × (init_term lm id ≡ lm))
      ⊎ (init_term lm id ≡ record lm { terms = with_pair lm.terms id 1 })
unfolding init_term
init_term_cases lm id = elim (Option-cases (lookup lm.terms id)) [
  | inl missing ↦ inr (ground (missing, arith))
  | inr (t, there) ↦ inl ((t, there), ground (there, arith))
]

with_split-IsSound :
    (s : Server) (source id : String) (fresh : List String)
    → IsSound s.migration
    → IsSound
        (with_split s id
          (add_shard s.migration.leader.shards (split_info source id fresh))).0.migration
unfolding with_split with_leaders split_info
with_split-IsSound s source id fresh sound =
    let lm = s.migration.leader in
    let info = split_info source id fresh in
    elim (add_shard_done lm.shards info) [
      | inl taken ↦ rw taken sound
      | inr (missing, e) ↦
          elim (init_term_cases (record lm { shards = changed lm.shards id info }) id) [
            | inl (term, same) ↦ rw e (
                rw same (
                  grown-IsSound s.migration info lm.terms missing (inl refl) refl (λ j h. h) term
                    sound))
            | inr first ↦
                rw e (
                  rw first (with_first_term-IsSound s.migration info missing (inl refl) refl sound))
          ]
    ]

refresh_cases :
    (now : ℕ) (lm : LeaderManager)
    → (m : Membership) × ((refresh now lm ≡ record lm { membership = m })
        ⊎ (refresh now lm ≡ (Leader.check_and_reassign (record lm { membership = m })).0))
unfolding refresh
refresh_cases now lm = ((Membership.refresh_liveness now lm.membership).0, ground arith)

refresh-IsSound :
    (now : ℕ) (mm : MigrationManager)
    → IsSound mm
    → IsSound (record mm { leader = refresh now mm.leader })
refresh-IsSound now mm sound =
    let (m, after) = refresh_cases now mm.leader in
    elim after [
      | inl e ↦ rw e sound
      | inr e ↦
          rw e
            (reassigned-IsSound (record mm { leader = record mm.leader { membership = m } }) sound)
    ]

-- No step of the coordinator breaks the managers' state.
Step-IsSound : {s t : Server} → Step s t → IsSound s.migration → IsSound t.migration
unfolding notify_leader with_leaders health_tick
Step-IsSound {s} (beat now id shards) sound =
    let (m, e) = heartbeat_cases now s id shards in rw e (with_membership-IsSound s m sound)
Step-IsSound {s} (notify id node term) sound = notify-IsSound s.migration id node term sound
Step-IsSound {s} (add_node id address) sound = elim (add_node_cases s id address) [
  | inl same ↦ rw same sound
  | inr (m, e) ↦ rw e (with_membership-IsSound s m sound)
]
Step-IsSound {s} (migrate id fresh) sound = elim (migrate_cases s id fresh) [
  | inl same ↦ rw same sound
  | inr e ↦ rw e (start_migration-IsSound s.migration id fresh sound)
]
Step-IsSound {s} (split source id fresh) sound = elim (split_cases s source id fresh) [
  | inl same ↦ rw same sound
  | inr e ↦ rw e (with_split-IsSound s source id fresh sound)
]
Step-IsSound {s} (tick now) sound =
    check_migrations-IsSound (record s.migration { leader = refresh now s.migration.leader })
      (refresh-IsSound now s.migration sound)

-- After any sequence of calls and ticks, whatever their arguments and times, every shard of the
-- coordinator is led by one of its replicas or by nobody, has a term, and marks as incoming exactly
-- what its one pending migration brings, and every pending migration is of a shard, if the initial
-- leaders of the configuration are replicas of their shards.
pub Reachable-IsSound :
    (cfg : ClusterConfig) → IsLedConfig cfg → {s : Server} → Reachable cfg s → IsSound s.migration
Reachable-IsSound cfg led start = init-IsSound cfg led
Reachable-IsSound cfg led (step before one) = Step-IsSound one (Reachable-IsSound cfg led before)
