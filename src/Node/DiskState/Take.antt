-- ===== src/Node/DiskState/Take.antt =====
-- `takeSnapshot` of node/diskstate.go: what the files and the log hold after it.
use doki.Prelude.{
  ℕ, zero, suc, ◌+◌, ◌≤◌, ◌<◌, ◌≡◌, refl, sym, ap, ◌∙◌, arith, Bool, true, Bool-cases, inl, inr,
  leb, ◌⊎◌, [], none, some,
}
use native.Mathlib.Numerals.{add-one}
use doki.Storage.{Kv}
use doki.Snapshot
use doki.Snapshot.{Snapshot, File, absent, Loaded}
use doki.Node.DiskState.{
  DiskState, Files, Io, write_file, rotate_snapshots, take_snapshot, load_latest_snapshot,
  after_save,
}
use doki.Node.DiskState.Rotate.{rotate_snapshots_moves}
use doki.Node.DiskState.Load.{Below, load_latest_first}

abbrev pub taken : ℕ → ℕ → Kv → Snapshot
taken term version kv = record { format_version = 1; term = term; version = version; kv = kv }

-- Every rename and the save of the new file succeed.
pub record Works (io : Io) : Type 0 where
  pub renames : (i : ℕ) → io.rename_ok i ≡ true
  pub saves : io.saved ≡ true

-- What a rotation leaves, also where there is only one index.
record Spared (v retention : ℕ) (fs : Files) : Type 0 where
  older :
      (i : ℕ)
      → 0 < i
      → i < retention
      → (s : Snapshot) → Snapshot.load (fs i) ≡ Loaded.found s
      → s.version ≤ v

Spared-of :
    (v retention : ℕ) (fs gs : Files)
    → Below v retention fs
    → ((j : ℕ) → j < retention → gs (j + 1) ≡ fs j)
    → Spared v retention gs
Spared-of v retention fs gs b moved = record { older = older }
  where
    older :
        (i : ℕ)
        → 0 < i
        → i < retention
        → (s : Snapshot) → Snapshot.load (gs i) ≡ Loaded.found s
        → s.version ≤ v
    older zero p h s l = absurd (omega arith)
    older (suc i) p h s l =
        b i (omega arith) s (ap Snapshot.load (sym (moved i (omega arith)) ∙ ap gs (add-one i)) ∙ l)

not_rotated :
    (rename_ok : ℕ → Bool) (n : ℕ) (fs : Files)
    → leb n 1 ≡ true
    → rotate_snapshots rename_ok n fs ≡ (fs, true)
unfolding rotate_snapshots
not_rotated rename_ok n fs e = rw e

module _ (io : Io) (w : Works io) where
  rotated_older :
      (v retention : ℕ) (fs : Files)
      → Below v retention fs
      → ((rotate_snapshots io.rename_ok retention fs).1 ≡ true)
        × Spared v retention (rotate_snapshots io.rename_ok retention fs).0
  rotated_older v retention fs b = elim (Bool-cases (leb retention 1)) [
    | inl one ↦
        rw (not_rotated io.rename_ok retention fs one)
          (refl, record { older = λ i p h. absurd (ground arith) })
    | inr many ↦
        let r = rotate_snapshots_moves io.rename_ok w.renames retention fs (ground arith) in
        let gs = (rotate_snapshots io.rename_ok retention fs).0 in
        (r.0, Spared-of v retention fs gs b r.2)
  ]

  take_snapshot-eq :
      (ds : DiskState) (term version : ℕ) (kv : Kv)
      → (rotate_snapshots io.rename_ok ds.snapshot_retention ds.files).1 ≡ true
      → take_snapshot io ds term version kv
        ≡ after_save io (record ds {
          files =
              write_file
                (rotate_snapshots io.rename_ok ds.snapshot_retention ds.files).0
                0
                (Snapshot.holds (taken term version kv));
        })
  unfolding take_snapshot
  take_snapshot-eq ds term version kv r = simp (r, w.saves)

-- A snapshot is the one that a restart finds, older files keep lower versions, and the log is
-- either emptied or left as it was.
pub record Taken (ds : DiskState) (term version : ℕ) (kv : Kv) (after : DiskState) : Type 0 where
  pub same_retention : after.snapshot_retention ≡ ds.snapshot_retention
  pub latest :
      load_latest_snapshot after.snapshot_retention after.files ≡ some (taken term version kv)
  pub below : Below version after.snapshot_retention after.files
  pub log : (after.wal.lines ≡ []) ⊎ (after.wal ≡ ds.wal)

after_save_lem :
    (io : Io) (ds : DiskState)
    → ((after_save io ds).0.snapshot_retention ≡ ds.snapshot_retention)
      × ((after_save io ds).0.files ≡ ds.files)
      × (((after_save io ds).0.wal.lines ≡ []) ⊎ ((after_save io ds).0.wal ≡ ds.wal))
unfolding after_save
after_save_lem io ds = ground arith

write_file_first : (fs : Files) (f : File) → write_file fs 0 f 0 ≡ f
unfolding write_file
write_file_first fs f = refl

write_file_other : (fs : Files) (f : File) (i : ℕ) → write_file fs 0 f (suc i) ≡ fs (suc i)
unfolding write_file
write_file_other fs f i = ground arith

load-taken :
    (term version : ℕ) (kv : Kv)
    → Snapshot.load (Snapshot.holds (taken term version kv)) ≡ Loaded.found (taken term version kv)
unfolding Snapshot.load
load-taken term version kv = refl

Below-write_file :
    (retention : ℕ) (fs : Files) (term version : ℕ) (kv : Kv)
    → Spared version retention fs
    → Below version retention (write_file fs 0 (Snapshot.holds (taken term version kv)))
Below-write_file retention fs term version kv sp zero k t l = ground (
  arith,
  l,
  load-taken term version kv,
  write_file_first fs (Snapshot.holds (taken term version kv)),
)
Below-write_file retention fs term version kv sp (suc i) k t l =
    sp.older (suc i) (omega arith) k t
      (ap Snapshot.load (sym (write_file_other fs (Snapshot.holds (taken term version kv)) i)) ∙ l)

pub take_snapshot_lem :
    (io : Io) (w : Works io) (ds : DiskState) (term version : ℕ) (kv : Kv)
    → 0 < ds.snapshot_retention
    → Below version ds.snapshot_retention ds.files
    → Taken ds term version kv (take_snapshot io ds term version kv).0
take_snapshot_lem io w ds term version kv pos b =
    let r = rotated_older io w version ds.snapshot_retention ds.files b in
    let gs = (rotate_snapshots io.rename_ok ds.snapshot_retention ds.files).0 in
    let hs = write_file gs 0 (Snapshot.holds (taken term version kv)) in
    let a = after_save_lem io (record ds { files = hs }) in
    let below = Below-write_file ds.snapshot_retention gs term version kv r.1 in
    let first = ap Snapshot.load (write_file_first gs (Snapshot.holds (taken term version kv))) in
    let latest =
      load_latest_first ds.snapshot_retention hs (taken term version kv) pos
        (first ∙ load-taken term version kv) below in
    rw (take_snapshot-eq io w ds term version kv r.0) (record {
      same_retention = a.0;
      latest = rw (a.0, a.1) latest;
      below = rw (a.0, a.1) below;
      log = a.2;
    })

after_save_truncated :
    (io : Io) (ds : DiskState)
    → io.truncated ≡ true
    → after_save io ds
      ≡ (record ds { wal = record { lines = [] }; writes_since_snapshot = 0 }, none)
unfolding after_save
after_save_truncated io ds e = ground arith

-- With more than one file retained and a log that is emptied, the older files survive, one index
-- up, whatever their versions.
pub take_snapshot_moves :
    (io : Io) (w : Works io) (ds : DiskState) (term version : ℕ) (kv : Kv)
    → io.truncated ≡ true
    → 1 < ds.snapshot_retention
    → ((take_snapshot io ds term version kv).0.wal.lines ≡ [])
      × ((take_snapshot io ds term version kv).0.snapshot_retention ≡ ds.snapshot_retention)
      × ((j : ℕ)
          → j < ds.snapshot_retention
          → (take_snapshot io ds term version kv).0.files (j + 1) ≡ ds.files j)
take_snapshot_moves io w ds term version kv e many =
    let r = rotate_snapshots_moves io.rename_ok w.renames ds.snapshot_retention ds.files many in
    let gs = (rotate_snapshots io.rename_ok ds.snapshot_retention ds.files).0 in
    let hs = write_file gs 0 (Snapshot.holds (taken term version kv)) in
    rw
      (
        take_snapshot-eq io w ds term version kv r.0,
        after_save_truncated io (record ds { files = hs }) e,
      )
      (
        refl,
        refl,
        λ j h.
            ap hs (add-one j)
            ∙ write_file_other gs (Snapshot.holds (taken term version kv)) j
            ∙ ap gs (sym (add-one j))
            ∙ r.2 j h,
      )
