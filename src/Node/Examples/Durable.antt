-- ===== src/Node/Examples/Durable.antt =====
-- The theorems about node/diskstate.go and node/statemachine.go at small replicas.
use doki.Prelude.{◌+◌, ◌≤◌, ◌<◌, ◌≡◌, refl, arith, [], ◌∷◌, none, some, true, str_ne, zero, suc}
use doki.Storage
use doki.ReplicationLog.{Entry}
use doki.Wal
use doki.Wal.Laws.{nil}
use doki.Snapshot
use doki.Node.DiskState
use doki.Node.DiskState.{DiskState, LoadResult, loaded, load, rotate_snapshots, Files}
use doki.Node.DiskState.OnDisk.{OnDisk}
use doki.Node.DiskState.Rotate.{rotate_snapshots_lem}
use doki.Node.StateMachine
use doki.Node.StateMachine.{
  StateMachine, apply, apply_op, apply_with_wal, apply_snapshot, snapshot_persist, StateSnapshot,
}
use doki.Node.StateMachine.Laws.{apply_error_keeps}
use doki.Node.StateMachine.Effects.{Performed, apply-Performed}
use doki.Node.StateMachine.Durability.{Mirrors, write, here, next, restart_finds_state}
use doki.Node.StateMachine.Losses.{write_after_unknown_lost, rollback_undone}
use doki.Node.Examples.{put_a, logged, every, io_works, disk_with, machine, on_disk}

abbrev pub empty : StateMachine
empty = on_disk (machine [] [] 0 0) (disk_with [] 0)

empty-OnDisk : OnDisk every (disk_with [] 0) [] 0 0
unfolding Wal.read_lines doki.Node.DiskState.ensure_monotonic_wal
    doki.Node.DiskState.load_latest_snapshot doki.Node.DiskState.baseline
    doki.Node.DiskState.replay_entries Snapshot.load
empty-OnDisk = record {
  keeps = omega arith;
  clean = nil;
  monotonic = refl;
  capped = tt;
  below = λ i k s h. ground arith;
  kv_stored = refl;
  version_stored = refl;
  term_stored = omega arith;
}

pub empty-Mirrors : Mirrors every empty
empty-Mirrors = record { disk = disk_with [] 0; here = refl; stands = empty-OnDisk }

abbrev pub with_a : StateMachine
with_a =
    on_disk (machine (("a", "x") ∷ []) (put_a 1 1 "x" ∷ []) 1 1)
      (disk_with (Wal.written (logged (put_a 1 1 "x")) ∷ []) 1)

pub apply_put : apply Wal.durable empty (put_a 1 1 "x") apply_with_wal ≡ (with_a, none)
unfolding apply Storage.with_pair Storage.without
apply_put = refl

restart_finds_state_example :
    (ds : DiskState) × (with_a.ds ≡ some ds)
    × (r : LoadResult) × (load every true ds ≡ loaded r)
    × (r.kv ≡ ("a", "x") ∷ [])
    × (r.version ≡ 1)
    × (r.term ≤ 1)
restart_finds_state_example =
    restart_finds_state every
      (next here (write Wal.durable (put_a 1 1 "x") refl (omega arith) apply_put)) empty-Mirrors

apply-Performed_example : Performed empty (put_a 1 1 "x") apply_with_wal with_a
apply-Performed_example =
    apply-Performed Wal.durable empty (put_a 1 1 "x") apply_with_wal with_a apply_put

stale_refused :
    apply Wal.durable with_a (put_a 0 2 "y") apply_with_wal
    ≡ (with_a, some StateMachine.stale_term_apply)
unfolding apply
stale_refused = refl

apply_error_keeps_example :
    (with_a.kv ≡ with_a.kv)
    × (with_a.version ≡ 1)
    × (with_a.term ≡ 1)
    × (with_a.rep_log ≡ with_a.rep_log)
apply_error_keeps_example =
    apply_error_keeps Wal.durable with_a (put_a 0 2 "y") apply_with_wal with_a stale_refused

abbrev incr : Entry
incr = record { term = 1; version = 1; op = "incr"; key = "a"; value = "1" }

abbrev lost : StateMachine
lost =
    on_disk (machine (("a", "x") ∷ []) (put_a 1 1 "x" ∷ []) 1 1)
      (disk_with (Wal.written (logged incr) ∷ Wal.written (logged (put_a 1 1 "x")) ∷ []) 2)

apply_after_incr :
    apply Wal.durable (apply Wal.durable empty incr apply_with_wal).0 (put_a 1 1 "x") apply_with_wal
    ≡ (lost, none)
unfolding apply Storage.with_pair Storage.without
apply_after_incr = refl

write_after_unknown_lost_example :
    (ds : DiskState) × (lost.ds ≡ some ds)
    × (r : LoadResult) × (load every true ds ≡ loaded r)
    × (r.kv ≡ [])
    × (r.version ≡ 1)
    × (apply_op empty.kv (put_a 1 1 "x") ≡ some lost.kv)
write_after_unknown_lost_example =
    write_after_unknown_lost every empty incr (put_a 1 1 "x") lost empty-Mirrors (omega arith)
      (str_ne "incr" "put" refl, str_ne "incr" "delete" refl) refl (omega arith) refl refl
      apply_after_incr

abbrev saved_5 : Snapshot.Snapshot
saved_5 = record { format_version = 1; term = 1; version = 5; kv = ("a", "y") ∷ [] }

abbrev ahead_disk : DiskState
ahead_disk = record (disk_with [] 0) { files = λ i. Snapshot.holds saved_5 }

abbrev ahead : StateMachine
ahead = on_disk (machine (("a", "y") ∷ []) [] 1 5) ahead_disk

abbrev snap_3 : StateSnapshot
snap_3 = record { term = 2; version = 3; kv = ("a", "x") ∷ [] }

abbrev rolled_back : StateMachine
rolled_back = (apply_snapshot io_works ahead snap_3 snapshot_persist).0

rolls_back : apply_snapshot io_works ahead snap_3 snapshot_persist ≡ (rolled_back, none)
unfolding apply_snapshot DiskState.take_snapshot
rolls_back = refl

saved_5_found : Snapshot.load (Snapshot.holds saved_5) ≡ Snapshot.found saved_5
unfolding Snapshot.load
saved_5_found = refl

rollback_undone_example :
    (after : DiskState) × (rolled_back.ds ≡ some after)
    × (rolled_back.version ≡ 3)
    × (r : LoadResult) × (load every true after ≡ loaded r)
    × (r.valid ≡ true)
    × (rolled_back.version < r.version)
rollback_undone_example =
    rollback_undone every io_works ahead ahead_disk snap_3 rolled_back 0 saved_5 refl
      (record { renames = λ i. refl; saves = refl }) refl (omega arith) saved_5_found (omega arith)
      rolls_back

abbrev one_file : Files
one_file zero = Snapshot.holds saved_5
one_file (suc i) = Snapshot.absent

rotate_snapshots_lem_example :
    ((rotate_snapshots (λ i. true) 2 one_file).1 ≡ true)
    × ((rotate_snapshots (λ i. true) 2 one_file).0 0 ≡ Snapshot.absent)
    × ((rotate_snapshots (λ i. true) 2 one_file).0 (0 + 1) ≡ Snapshot.holds saved_5)
rotate_snapshots_lem_example =
    rotate_snapshots_lem (λ i. true) (λ i. refl) 2 one_file 0 (omega arith) (omega arith)
