-- ===== src/Node/StateMachine/Losses.antt =====
-- Where a restart does not find the state that node/statemachine.go had: an unknown operation that
-- has reached the log, and a rollback below a retained snapshot.
use doki.Prelude.{
  ℕ, ◌+◌, ◌≤◌, ◌<◌, String, ◌≡◌, ◌≢◌, refl, sym, ap, ◌∙◌, arith, Bool, true, [], Option, none, some,
  max_u64, eq_iff, u64,
}
use doki.Storage.{Kv}
use doki.ReplicationLog.{Entry}
use doki.Wal
use doki.Snapshot
use doki.Snapshot.{Snapshot}
use doki.Node.DiskState.{
  DiskState, Io, LoadResult, loaded, load, replay_kv, append_wal, reset_snapshot, take_snapshot,
  load_latest_snapshot,
}
use doki.Node.DiskState.Load.{load_latest_found}
use doki.Node.DiskState.Take.{Works, take_snapshot_moves}
use doki.Node.DiskState.OnDisk.{OnDisk, load-OnDisk, OnDisk-append_again}
use doki.Node.StateMachine.{
  StateMachine, StateSnapshot, Err, apply_with_wal, snapshot_persist, wal_entry_from, apply,
  apply_op, apply_snapshot, unknown_op,
}
use doki.Node.StateMachine.Laws.{apply-Applied, accepted, apply-accepted}
use doki.Node.StateMachine.Durability.{Mirrors, OnDisk-write, log_to_disk-append}

-- An operation that `Apply` does not know.
abbrev pub IsUnknown : String → Type 0
IsUnknown op = (op ≢ "put") × (op ≢ "delete")

accepted_unknown :
    (sm : StateMachine) (ds : DiskState) (e : Entry)
    → sm.ds ≡ some ds
    → IsUnknown e.op
    → accepted Wal.durable sm e apply_with_wal
      ≡ (record sm { ds = some (append_wal Wal.durable ds (wal_entry_from e)).0 }, some unknown_op)
unfolding accepted
accepted_unknown sm ds e here bad = ground (arith, here, eq_iff e.op "put", eq_iff e.op "delete")

apply_unknown :
    (sm : StateMachine) (ds : DiskState) (e : Entry)
    → sm.ds ≡ some ds
    → IsUnknown e.op
    → e.version ≡ u64 (sm.version + 1)
    → sm.term ≤ e.term
    → apply Wal.durable sm e apply_with_wal
      ≡ (record sm { ds = some (append_wal Wal.durable ds (wal_entry_from e)).0 }, some unknown_op)
apply_unknown sm ds e here bad next current =
    apply-accepted Wal.durable sm e apply_with_wal next current ∙ accepted_unknown sm ds e here bad

replay_unknown : (kv : Kv) (e : Entry) → IsUnknown e.op → replay_kv kv (wal_entry_from e) ≡ kv
unfolding replay_kv wal_entry_from
replay_unknown kv e bad = ground (arith, eq_iff e.op "put", eq_iff e.op "delete")

module _ (fits : Wal.Entry → Bool) where
  again :
      (ds : DiskState) (kv : Kv) (term version : ℕ) (e : Entry)
      → OnDisk fits ds kv term version
      → fits (wal_entry_from e) ≡ true
      → e.version ≡ version
      → OnDisk fits (append_wal Wal.durable ds (wal_entry_from e)).0 kv term version
  unfolding wal_entry_from
  again ds kv term version e d f w =
      OnDisk-append_again fits ds kv term version (wal_entry_from e) d f w

  -- `Apply` writes an entry to the log before it looks at the operation. After an entry with an
  -- unknown operation, which `Apply` refuses, an accepted write takes the same version, and a
  -- restart finds the pairs from before both, at the version of the accepted write.
  -- The disk stands for the replica's state before, and both entries are appended to it and can be
  -- read back.
  pub write_after_unknown_lost :
      (sm : StateMachine) (bad good : Entry) (t : StateMachine)
      → Mirrors fits sm
      → sm.version < max_u64
      → IsUnknown bad.op
      → bad.version ≡ sm.version + 1
      → sm.term ≤ bad.term
      → fits (wal_entry_from bad) ≡ true
      → fits (wal_entry_from good) ≡ true
      → apply Wal.durable (apply Wal.durable sm bad apply_with_wal).0 good apply_with_wal
        ≡ (t, none)
      → (ds : DiskState) × (t.ds ≡ some ds)
        × (r : LoadResult) × (load fits true ds ≡ loaded r)
        × (r.kv ≡ sm.kv.pairs)
        × (r.version ≡ t.version)
        × (apply_op sm.kv good ≡ some t.kv)
  write_after_unknown_lost sm bad good t m small unknown next current f g h =
      let ds1 = (append_wal Wal.durable m.disk (wal_entry_from bad)).0 in
      let u = apply_unknown sm m.disk bad m.here unknown (omega arith) current in
      let s1 : StateMachine = record sm { ds = some ds1 } in
      let a = apply-Applied Wal.durable s1 good apply_with_wal t (
        ap (λ (p : StateMachine × Option Err). apply Wal.durable p.0 good apply_with_wal) (sym u)
        ∙ h) in
      let l = log_to_disk-append Wal.durable ds1 t.ds good a.disk in
      let d = OnDisk-write fits m.disk sm.kv.pairs sm.term sm.version bad m.stands f current next in
      let ds2 = (append_wal Wal.durable ds1 (wal_entry_from good)).0 in
      let kv1 = replay_kv sm.kv.pairs (wal_entry_from bad) in
      let (r, ok, kv, version, term) =
        load-OnDisk fits ds2 kv1 bad.term bad.version
          (again ds1 kv1 bad.term bad.version good d g (omega (arith, a.next))) in
      (
        ds2,
        l.1,
        r,
        ok,
        kv ∙ replay_unknown sm.kv.pairs bad unknown,
        omega (arith, a.version, a.next),
        a.effect,
      )

reset_persisted :
    (io : Io) (sm : StateMachine) (ds : DiskState) (snap : StateSnapshot) (t : StateMachine)
    → sm.ds ≡ some ds
    → apply_snapshot io sm snap snapshot_persist ≡ (t, none)
    → (t.ds ≡ some (take_snapshot io ds snap.term snap.version snap.kv).0)
      × (t.version ≡ snap.version)
unfolding apply_snapshot reset_snapshot
reset_persisted io sm ds snap t here h = ground arith

load_snapshot_only :
    (fits : Wal.Entry → Bool) (ds : DiskState) (b : Snapshot)
    → ds.wal.lines ≡ []
    → load_latest_snapshot ds.snapshot_retention ds.files ≡ some b
    → load fits true ds
      ≡ loaded (record { term = b.term; version = b.version; kv = b.kv; valid = true })
unfolding load
load_snapshot_only fits ds b e l = rw (e, l)

-- `ApplySnapshot` with a version below that of a retained snapshot, the rollback of a follower that
-- is ahead of its leader, succeeds, and a restart finds a state of a higher version than the one
-- that was rolled back to.
pub rollback_undone :
    (fits : Wal.Entry → Bool) (io : Io) (sm : StateMachine) (ds : DiskState) (snap : StateSnapshot)
    (t : StateMachine) (j : ℕ) (s : Snapshot)
    → sm.ds ≡ some ds
    → Works io
    → io.truncated ≡ true
    → j + 1 < ds.snapshot_retention
    → Snapshot.load (ds.files j) ≡ Snapshot.found s
    → snap.version < s.version
    → apply_snapshot io sm snap snapshot_persist ≡ (t, none)
    → (after : DiskState) × (t.ds ≡ some after)
      × (t.version ≡ snap.version)
      × (r : LoadResult) × (load fits true after ≡ loaded r)
      × (r.valid ≡ true)
      × (t.version < r.version)
rollback_undone fits io sm ds snap t j s here w cut h l low done =
    let after = (take_snapshot io ds snap.term snap.version snap.kv).0 in
    let p = reset_persisted io sm ds snap t here done in
    let m = take_snapshot_moves io w ds snap.term snap.version snap.kv cut (omega arith) in
    let (b, e, higher) =
      load_latest_found after.snapshot_retention (j + 1) after.files s (omega (arith, m.1))
        (ap Snapshot.load (m.2 j (omega arith)) ∙ l) in
    (
      after,
      p.0,
      p.1,
      record { term = b.term; version = b.version; kv = b.kv; valid = true },
      load_snapshot_only fits after b m.0 e,
      refl,
      omega (arith, p.1),
    )
