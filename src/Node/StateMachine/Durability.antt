-- ===== src/Node/StateMachine/Durability.antt =====
-- Durability of node/statemachine.go and node/diskstate.go together: a restart finds the state that
-- the accepted writes have made.
use doki.Prelude.{
  ℕ, ◌+◌, ◌≤◌, ◌<◌, ◌≡◌, refl, arith, Bool, true, false, Bool-cases, inl, inr, leb, Option, none,
  some, max_u64,
}
use doki.Storage.{Kv, Store}
use doki.ReplicationLog.{Entry}
use doki.Wal
use doki.Node.DiskState.{
  DiskState, Io, LoadResult, loaded, load, maybe_snapshot, replay_kv, append_wal, take_snapshot,
}
use doki.Node.DiskState.Take.{Works}
use doki.Node.DiskState.OnDisk.{OnDisk, load-OnDisk, OnDisk-append, OnDisk-take}
use doki.Node.StateMachine.{
  StateMachine, apply_with_wal, snapshot, wal_entry_from, apply, apply_op, log_to_disk,
}
use doki.Node.StateMachine.Laws.{apply-Applied}

-- The disk state stands for the state in memory.
pub record Mirrors (fits : Wal.Entry → Bool) (sm : StateMachine) : Type 0 where
  pub disk : DiskState
  pub here : sm.ds ≡ some disk
  pub stands : OnDisk fits disk sm.kv.pairs sm.term sm.version

-- Replay does to the pairs what `Apply` did.
apply_op-replay_kv :
    (kv t : Store) (e : Entry)
    → apply_op kv e ≡ some t
    → t.pairs ≡ replay_kv kv.pairs (wal_entry_from e)
unfolding apply_op replay_kv wal_entry_from
apply_op-replay_kv kv t e h = ground arith

pub log_to_disk-append :
    (outcome : Wal.AppendOutcome) (ds : DiskState) (o : Option DiskState) (e : Entry)
    → log_to_disk outcome apply_with_wal (some ds) e ≡ (o, none)
    → (outcome ≡ Wal.durable) × (o ≡ some (append_wal Wal.durable ds (wal_entry_from e)).0)
unfolding log_to_disk
log_to_disk-append outcome ds o e h = ground arith

maybe_due :
    (io : Io) (ds : DiskState) (term version : ℕ) (kv : Kv)
    → leb ds.snapshot_interval ds.writes_since_snapshot ≡ true
    → maybe_snapshot io ds term version kv ≡ take_snapshot io ds term version kv
unfolding maybe_snapshot
maybe_due io ds term version kv due = rw due

maybe_early :
    (io : Io) (ds : DiskState) (term version : ℕ) (kv : Kv)
    → leb ds.snapshot_interval ds.writes_since_snapshot ≡ false
    → maybe_snapshot io ds term version kv ≡ (ds, none)
unfolding maybe_snapshot
maybe_early io ds term version kv early = rw early

module _ (fits : Wal.Entry → Bool) where
  pub OnDisk-write :
      (ds : DiskState) (kv : Kv) (term version : ℕ) (e : Entry)
      → OnDisk fits ds kv term version
      → fits (wal_entry_from e) ≡ true
      → term ≤ e.term
      → e.version ≡ version + 1
      → OnDisk fits
          (append_wal Wal.durable ds (wal_entry_from e)).0
          (replay_kv kv (wal_entry_from e))
          e.term
          e.version
  unfolding wal_entry_from
  OnDisk-write ds kv term version e d f u w =
      OnDisk-append fits ds kv term version (wal_entry_from e) d f u w

  OnDisk-eq :
      (ds : DiskState) {k l : Kv} {t u v w : ℕ}
      → l ≡ k
      → u ≡ t
      → w ≡ v
      → OnDisk fits ds k t v
      → OnDisk fits ds l u w
  OnDisk-eq ds p q r d = rw (p, q, r) d

  -- An accepted write that the log's reader can take in is on disk when `Apply` returns.
  pub apply-Mirrors :
      (outcome : Wal.AppendOutcome) (sm t : StateMachine) (e : Entry)
      → Mirrors fits sm
      → fits (wal_entry_from e) ≡ true
      → sm.version < max_u64
      → apply outcome sm e apply_with_wal ≡ (t, none)
      → Mirrors fits t
  apply-Mirrors outcome sm t e m f small h =
      let a = apply-Applied outcome sm e apply_with_wal t h in
      let next : e.version ≡ sm.version + 1 = omega (arith, a.next) in
      let l = log_to_disk-append outcome m.disk t.ds e (rw m.here at a.disk) in
      let d = OnDisk-write m.disk sm.kv.pairs sm.term sm.version e m.stands f a.current next in
      record {
        disk = (append_wal Wal.durable m.disk (wal_entry_from e)).0;
        here = l.1;
        stands =
            OnDisk-eq (append_wal Wal.durable m.disk (wal_entry_from e)).0
              (apply_op-replay_kv sm.kv t.kv e a.effect) a.term a.version d;
      }

  maybe_snapshot-OnDisk :
      (io : Io) (w : Works io) (ds : DiskState) (kv : Kv) (term version : ℕ)
      → OnDisk fits ds kv term version
      → OnDisk fits (maybe_snapshot io ds term version kv).0 kv term version
  maybe_snapshot-OnDisk io w ds kv term version d =
      elim (Bool-cases (leb ds.snapshot_interval ds.writes_since_snapshot)) [
        | inl due ↦
            rw (maybe_due io ds term version kv due) (OnDisk-take fits io w ds kv term version d)
        | inr early ↦ rw (maybe_early io ds term version kv early) d
      ]

  -- What changes a replica that has a disk: accepted writes, and snapshots of the present state.
  pub data Step (sm t : StateMachine) : Type 0 where
    write :
        (outcome : Wal.AppendOutcome) (e : Entry)
        → fits (wal_entry_from e) ≡ true
        → sm.version < max_u64
        → apply outcome sm e apply_with_wal ≡ (t, none)
        → Step sm t
    save :
        (io : Io) (ds : DiskState)
        → Works io
        → sm.ds ≡ some ds
        → t ≡ record sm {
          ds =
              some
                (maybe_snapshot io ds (snapshot sm).term (snapshot sm).version (snapshot sm).kv).0;
        }
        → Step sm t

  pub data Steps (sm : StateMachine) : StateMachine → Type 0 where
    here : Steps sm sm
    next : {t u : StateMachine} → Steps sm t → Step t u → Steps sm u

  save-Mirrors :
      (io : Io) (sm : StateMachine) (ds : DiskState)
      → Works io
      → sm.ds ≡ some ds
      → Mirrors fits sm
      → Mirrors fits (record sm {
        ds =
            some (maybe_snapshot io ds (snapshot sm).term (snapshot sm).version (snapshot sm).kv).0;
      })
  unfolding snapshot
  save-Mirrors io sm ds w there m =
      let same : ds ≡ m.disk = ground (arith, m.here) in
      record {
        disk = (maybe_snapshot io ds sm.term sm.version sm.kv.pairs).0;
        here = refl;
        stands = maybe_snapshot-OnDisk io w ds sm.kv.pairs sm.term sm.version (rw same m.stands);
      }

  pub Step-Mirrors : {sm t : StateMachine} → Step sm t → Mirrors fits sm → Mirrors fits t
  Step-Mirrors {sm} {t} (write outcome e f small h) m = apply-Mirrors outcome sm t e m f small h
  Step-Mirrors {sm} {t} (save io ds w there e) m = rw e (save-Mirrors io sm ds w there m)

  pub Steps-Mirrors : {sm t : StateMachine} → Steps sm t → Mirrors fits sm → Mirrors fits t
  Steps-Mirrors here m = m
  Steps-Mirrors (next s st) m = Step-Mirrors st (Steps-Mirrors s m)

  -- After any sequence of accepted writes, of entries that the log's reader can take in, and of
  -- snapshots whose renames and saves succeed, at a replica whose disk stands for its state, the disk
  -- that the replica holds can be loaded, and `load` gives back exactly the replica's pairs and
  -- version, and a term of at most the replica's. No version wraps around.
  pub restart_finds_state :
      {sm t : StateMachine}
      → Steps sm t
      → Mirrors fits sm
      → (ds : DiskState) × (t.ds ≡ some ds)
        × (r : LoadResult) × (load fits true ds ≡ loaded r)
        × (r.kv ≡ t.kv.pairs)
        × (r.version ≡ t.version)
        × (r.term ≤ t.term)
  restart_finds_state {t = t} s m =
      let k = Steps-Mirrors s m in
      let l = load-OnDisk fits k.disk t.kv.pairs t.term t.version k.stands in
      (k.disk, k.here, l.0, l.1, l.2, l.3, l.4)
