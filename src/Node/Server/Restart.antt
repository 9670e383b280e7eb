-- ===== src/Node/Server/Restart.antt =====
-- What `initShardLocked` of node/server.go gives a replica whose disk it finds.
use doki.Prelude.{
  ℕ, ◌≤◌, ◌<◌, String, Bool, true, false, [], none, some, ◌≡◌, ◌≢◌, refl, ◌∙◌, sym, arith,
  Bool-cases, inl, inr, str_eq_refl, str_eq_of_ne,
}
use doki.Storage
use doki.Storage.{Pairs, Kv, lookup, with_pair}
use doki.Storage.Laws.{lookup-with_pair}
use doki.Wal
use doki.ShardMap.{ShardInfo}
use doki.Config.{NodeConfig}
use doki.Node.DiskState.{DiskState, LoadResult, loaded, load, open_disk_state}
use doki.Node.DiskState.OnDisk.{OnDisk, load-OnDisk}
use doki.Node.StateMachine
use doki.Node.StateMachine.{StateMachine, set_disk_state}
use doki.Node.StateMachine.Durability.{Mirrors, Steps, Steps-Mirrors}
use doki.Node.Replica.{ReplicaState, new_shard_state_machine, new_replica_state}
use doki.Node.Server.{
  Server, ShardMapResponse, Env, Found, init_shard, fresh_replica, from_disk, with_disk, opened,
  after_load, restored, or_zero, as_leader, with_source,
}

fresh_replica_lem :
    (env : Env) (resp : ShardMapResponse) (s : Server) (shard : ShardInfo)
    → ((fresh_replica env resp s shard).shard_id ≡ shard.id)
      × ((fresh_replica env resp s shard).sm
          ≡ new_shard_state_machine (or_zero s.cfg.replication_log_size))
unfolding fresh_replica as_leader with_source new_replica_state
fresh_replica_lem env resp s shard = ground arith

-- The disk state that is opened over the files of another.
abbrev reopened : NodeConfig → DiskState → DiskState
reopened cfg ds = record {
  wal = ds.wal;
  files = ds.files;
  writes_since_snapshot = 0;
  snapshot_interval = or_zero cfg.snapshot_interval;
  snapshot_retention = ds.snapshot_retention;
}

reopened-OnDisk :
    (fits : Wal.Entry → Bool) (cfg : NodeConfig) (ds : DiskState) (kv : Kv) (term version : ℕ)
    → OnDisk fits ds kv term version
    → OnDisk fits (reopened cfg ds) kv term version
reopened-OnDisk fits cfg ds kv term version d = record {
  keeps = d.keeps;
  clean = d.clean;
  monotonic = d.monotonic;
  capped = d.capped;
  below = d.below;
  kv_stored = d.kv_stored;
  version_stored = d.version_stored;
  term_stored = d.term_stored;
}

opened_lem :
    (cfg : NodeConfig) (ds : DiskState)
    → 0 < or_zero cfg.snapshot_interval
    → 0 < ds.snapshot_retention
    → or_zero cfg.snapshot_retention ≡ ds.snapshot_retention
    → opened cfg (some (ds.wal, ds.files)) ≡ some (reopened cfg ds)
unfolding opened open_disk_state
opened_lem cfg ds interval keeps retention = rw retention (ground (interval, keeps, arith))

load_invalid :
    (fits : Wal.Entry → Bool) (ds : DiskState) (l : LoadResult)
    → load fits true ds ≡ loaded l
    → l.valid ≡ false
    → (l.kv ≡ []) × (l.version ≡ 0) × (l.term ≡ 0)
unfolding load
load_invalid fits ds l h fresh = ground arith

restored_lem :
    (r : ReplicaState) (l : LoadResult)
    → ((restored r l).sm.kv.pairs ≡ l.kv)
      × ((restored r l).version ≡ l.version)
      × ((restored r l).term ≡ l.term)
unfolding restored StateMachine.apply_snapshot Storage.apply_snapshot
restored_lem r l = (refl, refl, refl)

-- The replica has these pairs, this version and at most this term.
abbrev pub Holds : ReplicaState → Kv → ℕ → ℕ → Type 0
Holds r kv term version = (r.sm.kv.pairs ≡ kv) × (r.version ≡ version) × (r.term ≤ term)

after_load-Holds :
    (fits : Wal.Entry → Bool) (ds : DiskState) (r : ReplicaState) (l : LoadResult) (kv : Kv)
    (term version : ℕ)
    → load fits true ds ≡ loaded l
    → r.sm.kv.pairs ≡ []
    → r.version ≡ 0
    → r.term ≡ 0
    → l.kv ≡ kv
    → l.version ≡ version
    → l.term ≤ term
    → Holds (after_load r (loaded l)) kv term version
unfolding after_load
after_load-Holds fits ds r l kv term version h a b c p q u = elim (Bool-cases l.valid) [
  | inl found ↦ let (x, y, z) = restored_lem r l in rw found (x ∙ p, y ∙ q, omega (arith, z, u))
  | inr fresh ↦
      let (x, y, z) = load_invalid fits ds l h fresh in
      rw fresh (a ∙ sym x ∙ p, b ∙ sym y ∙ q, omega (arith, c))
]

-- The replica that is made for a shard the node does not have.
init_shard_new :
    (env : Env) (resp : ShardMapResponse) (s : Server) (shard : ShardInfo)
    → lookup s.replicas shard.id ≡ none
    → lookup (init_shard env resp s shard).replicas shard.id
      ≡ some (from_disk env.found s.cfg shard.id (fresh_replica env resp s shard))
unfolding init_shard
init_shard_new env resp s shard missing = ground (
  missing,
  arith,
  str_eq_refl shard.id,
  lookup-with_pair s.replicas shard.id
      (from_disk env.found s.cfg shard.id (fresh_replica env resp s shard)) shard.id,
)

-- The server reads the disk where `ds` has left it.
pub record Finds (env : Env) (cfg : NodeConfig) (shard_id : String) (ds : DiskState) : Type 0 where
  pub stores : cfg.data_dir ≢ ""
  pub interval : 0 < or_zero cfg.snapshot_interval
  pub retention : or_zero cfg.snapshot_retention ≡ ds.snapshot_retention
  pub opens : env.found.opens shard_id ≡ some (ds.wal, ds.files)
  pub reads : env.found.readable shard_id ≡ true

with_disk-Holds :
    (found : Found) (cfg : NodeConfig) (r : ReplicaState) (n : ℕ) (ds : DiskState) (kv : Kv)
    (term version : ℕ)
    → found.readable r.shard_id ≡ true
    → r.sm ≡ new_shard_state_machine n
    → OnDisk found.fits ds kv term version
    → Holds (with_disk found r (some (reopened cfg ds))) kv term version
unfolding with_disk set_disk_state new_shard_state_machine Storage.new
with_disk-Holds found cfg r n ds kv term version reads fresh d =
    let again = reopened cfg ds in
    let (l, e, p, q, u) =
      load-OnDisk found.fits again kv term version
        (reopened-OnDisk found.fits cfg ds kv term version d) in
    rw reads (
      rw e (
        after_load-Holds found.fits again (record r { sm = set_disk_state r.sm again }) l kv term
          version e (rw fresh refl) (rw fresh refl) (rw fresh refl) p q u))

from_disk-Holds :
    (env : Env) (cfg : NodeConfig) (r : ReplicaState) (n : ℕ) (id : String) (ds : DiskState)
    (kv : Kv) (term version : ℕ)
    → r.shard_id ≡ id
    → r.sm ≡ new_shard_state_machine n
    → Finds env cfg id ds
    → OnDisk env.found.fits ds kv term version
    → Holds (from_disk env.found cfg id r) kv term version
unfolding from_disk
from_disk-Holds env cfg r n id ds kv term version here fresh f d =
    rw (str_eq_of_ne cfg.data_dir "" f.stores) (
      rw (f.opens) (
        rw (opened_lem cfg ds f.interval d.keeps f.retention)
          (with_disk-Holds env.found cfg r n ds kv term version (rw here (f.reads)) fresh d)))

-- After any sequence of accepted writes, of entries that the log's reader can take in, and of
-- snapshots whose renames and saves succeed, at a replica whose disk stands for its state, a server
-- that does not have the shard yet and finds that disk makes a replica with exactly the same pairs
-- and version, and a term of at most the same, whatever the shard map says of the shard.
pub init_shard_restores :
    (env : Env) (resp : ShardMapResponse) (s : Server) (shard : ShardInfo) (ds : DiskState)
    {sm t : StateMachine}
    → Steps env.found.fits sm t
    → Mirrors env.found.fits sm
    → t.ds ≡ some ds
    → lookup s.replicas shard.id ≡ none
    → Finds env s.cfg shard.id ds
    → (r : ReplicaState) × (lookup (init_shard env resp s shard).replicas shard.id ≡ some r)
      × Holds r t.kv.pairs t.term t.version
init_shard_restores env resp s shard ds {t = t} steps m here missing f =
    let k = Steps-Mirrors env.found.fits steps m in
    let same : k.disk ≡ ds = ground (arith, here, k.here) in
    let (a, b) = fresh_replica_lem env resp s shard in
    (
      from_disk env.found s.cfg shard.id (fresh_replica env resp s shard),
      init_shard_new env resp s shard missing,
      from_disk-Holds env s.cfg (fresh_replica env resp s shard)
          (or_zero s.cfg.replication_log_size) shard.id ds t.kv.pairs t.term t.version a b f
          (rw same at (k.stands)),
    )
