-- ===== src/Coordinator/Membership/Laws.antt =====
-- What coordinator/membership.go promises about the liveness of nodes.
use doki.Prelude.{
  ℕ, ◌-◌, ◌≤◌, ◌<◌, String, ◌≡◌, refl, ap, ◌∙◌, arith, Bool, true, false, Bool-cases, inl, inr, ◌⊎◌,
  List, [], ◌∷◌, some, str_eq, str_eq_refl,
}
use doki.Storage.{Pairs, lookup, with_pair}
use doki.Storage.Laws.{lookup-with_pair}
use doki.Coordinator.Membership.{
  NodeStatus, ShardStatus, Membership, refreshed, refresh_liveness, record_heartbeat, get, is_live,
  with_heartbeat,
}

refreshed-lookup :
    (now timeout : ℕ) (nodes : Pairs NodeStatus) (id : String) (ns : NodeStatus)
    → lookup nodes id ≡ some ns
    → lookup (refreshed now timeout nodes) id
      ≡ some (record ns { is_alive = is_live now timeout ns.last_heartbeat_at })
unfolding lookup refreshed
refreshed-lookup now timeout [] id ns h = ground arith
refreshed-lookup now timeout ((i, m) ∷ rest) id ns h = elim (Bool-cases (str_eq i id)) [
  | inl same ↦
      let q : m ≡ ns = ground (same, h, arith) in
      rw same (
        ap
          (λ (x : NodeStatus).
            some (record x { is_alive = is_live now timeout x.last_heartbeat_at }))
          q)
  | inr other ↦ rw other (refreshed-lookup now timeout rest id ns (rw other at h))
]

record_heartbeat_done :
    (now : ℕ) (m n : Membership) (id : String) (shards : List ShardStatus)
    → record_heartbeat now m id shards ≡ (n, true)
    → (ns : NodeStatus) × (lookup m.nodes id ≡ some ns)
      × (n ≡ record m { nodes = with_pair m.nodes id (with_heartbeat now shards ns) })
unfolding record_heartbeat
record_heartbeat_done now m n id shards h = ground arith

heartbeat_found :
    (now : ℕ) (shards : List ShardStatus) (nodes : Pairs NodeStatus) (id : String) (ns : NodeStatus)
    → lookup (with_pair nodes id (with_heartbeat now shards ns)) id
      ≡ some (with_heartbeat now shards ns)
heartbeat_found now shards nodes id ns =
    lookup-with_pair nodes id (with_heartbeat now shards ns) id ∙ rw (str_eq_refl id)

heartbeat_time :
    (now : ℕ) (shards : List ShardStatus) (ns : NodeStatus)
    → (with_heartbeat now shards ns).last_heartbeat_at ≡ now
unfolding with_heartbeat
heartbeat_time now shards ns = refl

live_after :
    (now later timeout : ℕ) → 0 < now → later - now < timeout → is_live later timeout now ≡ true
unfolding is_live
live_after now later timeout pos h = ground arith

-- A node whose heartbeat has been recorded is found alive by a refresh that comes before the
-- timeout has passed.
pub record_heartbeat-refresh_liveness :
    (now later : ℕ) (m n : Membership) (id : String) (shards : List ShardStatus)
    → 0 < now
    → later - now < m.timeout
    → record_heartbeat now m id shards ≡ (n, true)
    → (ns : NodeStatus) × (get (refresh_liveness later n).0 id ≡ some ns) × (ns.is_alive ≡ true)
unfolding get refresh_liveness
record_heartbeat-refresh_liveness now later m n id shards pos soon h =
    let (ns, there, e) = record_heartbeat_done now m n id shards h in
    let s = with_heartbeat now shards ns in
    (
      record s { is_alive = is_live later m.timeout s.last_heartbeat_at },
      rw e (
          refreshed-lookup later m.timeout (with_pair m.nodes id s) id s
            (heartbeat_found now shards m.nodes id ns)),
      rw (heartbeat_time now shards ns) (live_after now later m.timeout pos soon),
    )

-- A refresh finds a node dead once its last heartbeat is as long ago as the timeout, or if there
-- was none.
pub refresh_liveness_dead :
    (now : ℕ) (m : Membership) (id : String) (ns : NodeStatus)
    → get m id ≡ some ns
    → (ns.last_heartbeat_at ≡ 0) ⊎ (m.timeout ≤ now - ns.last_heartbeat_at)
    → get (refresh_liveness now m).0 id ≡ some (record ns { is_alive = false })
unfolding get refresh_liveness is_live
refresh_liveness_dead now m id ns there late =
    refreshed-lookup now m.timeout m.nodes id ns there
    ∙ ap (λ (b : Bool). some (record ns { is_alive = b })) (ground (late, arith))
