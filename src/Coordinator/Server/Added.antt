-- ===== src/Coordinator/Server/Added.antt =====
-- A shard that coordinator/leader.go or coordinator/server.go adds, with its first term, leaves the
-- managers' state sound.
use doki.Prelude.{
  ℕ, String, ◌≡◌, refl, arith, Bool-cases, Option-cases, inl, inr, ◌⊎◌, List, [], ◌∷◌, none, some,
  eq_iff, str_eq, str_eq_refl,
}
use doki.Storage.{Pairs, lookup, with_pair}
use doki.Storage.Laws.{lookup-with_pair}
use doki.ShardMap
use doki.ShardMap.{ShardInfo, ShardMap, Err, add_shard, changed, already_exists}
use doki.ShardMap.Laws.{IsLed, changed-IsValid}
use doki.Coordinator.Leader.{LeaderManager, ShardSpec, initial_info, init_from_config}
use doki.Coordinator.Leader.Reassign.{HasTerm, with_term}
use doki.Coordinator.Migration.{MigrationManager}
use doki.Coordinator.Migration.Laws.{lookup-changed}
use doki.Coordinator.Migration.Sound.{IsSound, IsManaged, IsKnown, replicas_or_none}
use doki.Coordinator.Server.Reach.{IsLedSpec}
use doki.Prelude.{All}

-- A shard that the map does not have does not migrate.
known_missing :
    (mm : MigrationManager) (id : String)
    → IsSound mm
    → lookup mm.leader.shards.shards id ≡ none
    → lookup mm.migrations id ≡ none
known_missing mm id (v, managed, known, keyed) missing =
    elim (Option-cases (lookup mm.migrations id)) [
      | inl gone ↦ gone
      | inr (rs, h) ↦ let (s, there) = known id rs h in absurd (ground (there, missing, arith))
    ]

-- The leader manager with one more shard, and its terms.
abbrev pub grown : LeaderManager → ShardInfo → Pairs ℕ → LeaderManager
grown lm info terms = record {
  shards = changed lm.shards info.id info;
  membership = lm.membership;
  terms = terms;
}

grown-IsManaged :
    (mm : MigrationManager) (info : ShardInfo) (terms : Pairs ℕ)
    → lookup mm.leader.shards.shards info.id ≡ none
    → info.incoming_replicas ≡ []
    → ((j : String) → HasTerm mm.leader j → HasTerm (grown mm.leader info terms) j)
    → HasTerm (grown mm.leader info terms) info.id
    → IsSound mm
    → IsManaged (grown mm.leader info terms) mm.migrations
unfolding replicas_or_none
grown-IsManaged mm info terms fresh none_comes keeps fresh_term sound j t h =
    elim (Bool-cases (str_eq info.id j)) [
      | inl same ↦
          let q : info.id ≡ j = (eq_iff info.id j).0 same in
          (
            rw q at fresh_term,
            ground (
              arith,
              lookup-changed mm.leader.shards info.id info j,
              h,
              same,
              none_comes,
              q,
              known_missing mm info.id sound fresh,
            ),
          )
      | inr other ↦
          let old : lookup mm.leader.shards.shards j ≡ some t =
            ground (arith, lookup-changed mm.leader.shards info.id info j, h, other) in
          (keeps j (sound.1 j t old).0, (sound.1 j t old).1)
    ]

grown-IsKnown :
    (mm : MigrationManager) (info : ShardInfo) (terms : Pairs ℕ)
    → IsSound mm
    → IsKnown (grown mm.leader info terms) mm.migrations
grown-IsKnown mm info terms sound j rs h = elim (Bool-cases (str_eq info.id j)) [
  | inl same ↦ (info, ground (arith, lookup-changed mm.leader.shards info.id info j, same))
  | inr other ↦
      let (t, old) = sound.2 j rs h in
      (t, ground (arith, lookup-changed mm.leader.shards info.id info j, other, old))
]

pub grown-IsSound :
    (mm : MigrationManager) (info : ShardInfo) (terms : Pairs ℕ)
    → lookup mm.leader.shards.shards info.id ≡ none
    → IsLed info
    → info.incoming_replicas ≡ []
    → ((j : String) → HasTerm mm.leader j → HasTerm (grown mm.leader info terms) j)
    → HasTerm (grown mm.leader info terms) info.id
    → IsSound mm
    → IsSound (record mm { leader = grown mm.leader info terms })
grown-IsSound mm info terms fresh led none_comes keeps fresh_term sound = (
  changed-IsValid mm.leader.shards info.id info sound.0 refl led,
  grown-IsManaged mm info terms fresh none_comes keeps fresh_term sound,
  grown-IsKnown mm info terms sound,
  sound.3,
)

-- `AddShard` fails or adds the shard, which was not there.
pub add_shard_done :
    (m : ShardMap) (info : ShardInfo)
    → (add_shard m info ≡ (m, some already_exists))
      ⊎ ((lookup m.shards info.id ≡ none) × (add_shard m info ≡ (changed m info.id info, none)))
unfolding add_shard
add_shard_done m info = ground arith

term_set :
    (lm n : LeaderManager) (id : String) (t : ℕ) → n.terms ≡ with_pair lm.terms id t → HasTerm n id
term_set lm n id t h = (t, ground (arith, h, lookup-with_pair lm.terms id t id, str_eq_refl id))

pub with_first_term-IsSound :
    (mm : MigrationManager) (info : ShardInfo)
    → lookup mm.leader.shards.shards info.id ≡ none
    → IsLed info
    → info.incoming_replicas ≡ []
    → IsSound mm
    → IsSound (record mm { leader = grown mm.leader info (with_pair mm.leader.terms info.id 1) })
with_first_term-IsSound mm info fresh led none_comes sound =
    let terms = with_pair mm.leader.terms info.id 1 in
    let n = grown mm.leader info terms in
    grown-IsSound mm info terms fresh led none_comes (with_term mm.leader n info.id 1 refl)
      (term_set mm.leader n info.id 1 refl) sound

initial-IsLed : (spec : ShardSpec) → IsLedSpec spec → IsLed (initial_info spec)
unfolding initial_info ShardMap.has_replica
initial-IsLed spec led = led

init_config_taken :
    (lm : LeaderManager) (spec : ShardSpec) (specs : List ShardSpec) (m : ShardMap) (e : Err)
    → add_shard lm.shards (initial_info spec) ≡ (m, some e)
    → (init_from_config lm (spec ∷ specs)).0 ≡ lm
unfolding init_from_config
init_config_taken lm spec specs m e h = ground (h, arith)

init_config_added :
    (lm : LeaderManager) (spec : ShardSpec) (specs : List ShardSpec) (m : ShardMap)
    → add_shard lm.shards (initial_info spec) ≡ (m, none)
    → (init_from_config lm (spec ∷ specs)).0
      ≡ (init_from_config (record lm { shards = m; terms = with_pair lm.terms spec.id 1 }) specs).0
unfolding init_from_config
init_config_added lm spec specs m h = ground (h, arith)

init_nothing :
    (mm : MigrationManager)
    → IsSound mm
    → IsSound (record mm { leader = (init_from_config mm.leader []).0 })
unfolding init_from_config
init_nothing mm sound = sound

pub init_from_config-IsSound :
    (mm : MigrationManager) (specs : List ShardSpec)
    → All IsLedSpec specs
    → IsSound mm
    → IsSound (record mm { leader = (init_from_config mm.leader specs).0 })
unfolding initial_info
init_from_config-IsSound mm [] led sound = init_nothing mm sound
init_from_config-IsSound mm (spec ∷ specs) led sound =
    let info = initial_info spec in
    elim (add_shard_done mm.leader.shards info) [
      | inl taken ↦
          rw (init_config_taken mm.leader spec specs mm.leader.shards already_exists taken) sound
      | inr (fresh, e) ↦
          let m = changed mm.leader.shards info.id info in
          let n = grown mm.leader info (with_pair mm.leader.terms info.id 1) in
          rw (init_config_added mm.leader spec specs m e) (
            init_from_config-IsSound (record mm { leader = n }) specs led.1
              (with_first_term-IsSound mm info fresh (initial-IsLed spec led.0) refl sound))
    ]
