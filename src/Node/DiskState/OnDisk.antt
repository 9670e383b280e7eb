-- ===== src/Node/DiskState/OnDisk.antt =====
-- The state that the files of node/diskstate.go stand for, and how each write changes it.
use doki.Prelude.{
  ℕ, ◌+◌, ◌≤◌, ◌<◌, ◌≡◌, refl, sym, ap, ◌∙◌, arith, Bool, true, false, Bool-cases, inl, inr, ◌⊎◌,
  List, [], ◌∷◌, ◌++◌, Option, none, some, All, All-append, All-map,
}
use doki.Storage.{Kv}
use doki.Wal
use doki.Wal.{Wal, Line}
use doki.Wal.Laws.{Clean, Clean-snoc, read_lines-snoc}
use doki.Snapshot.{Snapshot}
use doki.Node.DiskState.{
  DiskState, Replay, Io, LoadResult, loaded, load_latest_snapshot, ensure_monotonic_wal, replay_kv,
  replay_entry, replay_entries, baseline, is_fresh, append_wal, take_snapshot, load,
}
use doki.Node.DiskState.Load.{
  Below, replay_entries-append, replay_entry_included, replay_entries_included,
  ensure_monotonic_wal-snoc,
}
use doki.Node.DiskState.Take.{Taken, Works, taken, take_snapshot_lem}

abbrev pub stored : (Wal.Entry → Bool) → DiskState → Replay
stored fits ds =
    replay_entries (baseline (load_latest_snapshot ds.snapshot_retention ds.files))
      (Wal.read_lines fits ds.wal.lines)

-- The newest snapshot and the log behind it stand for `kv` at `version`.
pub record OnDisk (fits : Wal.Entry → Bool) (ds : DiskState) (kv : Kv) (term version : ℕ)
    : Type 0 where
  pub keeps : 0 < ds.snapshot_retention
  pub clean : Clean fits ds.wal.lines
  pub monotonic : ensure_monotonic_wal (Wal.read_lines fits ds.wal.lines) ≡ true
  pub capped : All (λ e. e.version ≤ version) (Wal.read_lines fits ds.wal.lines)
  pub below : Below version ds.snapshot_retention ds.files
  pub kv_stored : (stored fits ds).kv ≡ kv
  pub version_stored : (stored fits ds).version ≡ version
  pub term_stored : (stored fits ds).term ≤ term

module _ (fits : Wal.Entry → Bool) where
  fresh_zero :
      (snap : Option Snapshot) (es : List Wal.Entry)
      → is_fresh snap es ≡ true
      → replay_entries (baseline snap) es ≡ record { kv = []; term = 0; version = 0 }
  unfolding is_fresh baseline replay_entries
  fresh_zero none [] h = refl
  fresh_zero none (e ∷ es) h = cc
  fresh_zero (some s) es h = cc

  -- A readable log and snapshot give back what is on disk, as the result of a restart.
  pub load-OnDisk :
      (ds : DiskState) (kv : Kv) (term version : ℕ)
      → OnDisk fits ds kv term version
      → (r : LoadResult) × (load fits true ds ≡ loaded r)
        × (r.kv ≡ kv)
        × (r.version ≡ version)
        × (r.term ≤ term)
  unfolding load
  load-OnDisk ds kv term version d =
      let snap = load_latest_snapshot ds.snapshot_retention ds.files in
      let es = Wal.read_lines fits ds.wal.lines in
      elim (Bool-cases (is_fresh snap es)) [
        | inl fresh ↦
            let z = fresh_zero snap es fresh in
            (
              record { term = 0; version = 0; kv = []; valid = false },
              rw fresh,
              sym (ap (λ (r : Replay). r.kv) z) ∙ d.kv_stored,
              sym (ap (λ (r : Replay). r.version) z) ∙ d.version_stored,
              omega arith,
            )
        | inr there ↦ (
          record {
            term = (stored fits ds).term;
            version = (stored fits ds).version;
            kv = (stored fits ds).kv;
            valid = true;
          },
          rw (there, d.monotonic),
          d.kv_stored,
          d.version_stored,
          d.term_stored,
        )
      ]

  replay_next :
      (r : Replay) (e : Wal.Entry) (term version : ℕ)
      → r.version ≡ version
      → r.term ≤ term
      → term ≤ e.term
      → e.version ≡ version + 1
      → replay_entry r e ≡ record { kv = replay_kv r.kv e; term = e.term; version = e.version }
  unfolding replay_entry
  replay_next r e term version v t u w = ground arith

  replay_one : (r : Replay) (e : Wal.Entry) → replay_entries r (e ∷ []) ≡ replay_entry r e
  unfolding replay_entries
  replay_one r e = refl

  append_durable : DiskState → Wal.Entry → DiskState
  unfolding append_wal Wal.append
  append_durable ds e = (append_wal Wal.durable ds e).0

  lines-append :
      (ds : DiskState) (e : Wal.Entry)
      → Clean fits ds.wal.lines
      → fits e ≡ true
      → Wal.read_lines fits (append_durable ds e).wal.lines
        ≡ Wal.read_lines fits ds.wal.lines ++ e ∷ []
  unfolding append_durable
  lines-append ds e c f = read_lines-snoc fits e f c

  stored-append :
      (ds : DiskState) (kv : Kv) (term version : ℕ) (e : Wal.Entry)
      → OnDisk fits ds kv term version
      → fits e ≡ true
      → term ≤ e.term
      → e.version ≡ version + 1
      → stored fits (append_durable ds e)
        ≡ record { kv = replay_kv kv e; term = e.term; version = e.version }
  unfolding append_durable
  stored-append ds kv term version e d f u w =
      let b = baseline (load_latest_snapshot ds.snapshot_retention ds.files) in
      let old = Wal.read_lines fits ds.wal.lines in
      rw (read_lines-snoc fits e f d.clean) (
        replay_entries-append b old (e ∷ [])
        ∙ replay_one (replay_entries b old) e
        ∙ replay_next (stored fits ds) e term version d.version_stored d.term_stored u w
        ∙ ap (λ (k : Kv). record { kv = replay_kv k e; term = e.term; version = e.version })
            d.kv_stored)

  -- A durable append of the next version, of a term that is not stale, adds its operation.
  pub OnDisk-append :
      (ds : DiskState) (kv : Kv) (term version : ℕ) (e : Wal.Entry)
      → OnDisk fits ds kv term version
      → fits e ≡ true
      → term ≤ e.term
      → e.version ≡ version + 1
      → OnDisk fits (append_wal Wal.durable ds e).0 (replay_kv kv e) e.term e.version
  unfolding append_durable
  OnDisk-append ds kv term version e d f u w =
      let s = stored-append ds kv term version e d f u w in
      let old = Wal.read_lines fits ds.wal.lines in
      let low =
        All-map (λ x. x.version ≤ version) (λ x. x.version ≤ e.version) old (λ x h. omega arith)
          d.capped in
      record {
        keeps = d.keeps;
        clean = Clean-snoc fits e f d.clean;
        monotonic =
            rw (lines-append ds e d.clean f) (ensure_monotonic_wal-snoc old e low d.monotonic);
        capped =
            rw (lines-append ds e d.clean f)
              (All-append (λ x. x.version ≤ e.version) old (e ∷ []) low (omega arith, tt));
        below = λ i h s l. omega (arith, d.below i h s l);
        kv_stored = ap (λ (r : Replay). r.kv) s;
        version_stored = ap (λ (r : Replay). r.version) s;
        term_stored = rw s (omega arith);
      }

  -- The log's part of `OnDisk`.
  abbrev LogPart : List Line → ℕ → Type 0
  LogPart ls version =
      Clean fits ls
      × (ensure_monotonic_wal (Wal.read_lines fits ls) ≡ true)
      × All (λ e. e.version ≤ version) (Wal.read_lines fits ls)

  LogPart-empty : (version : ℕ) → LogPart [] version
  unfolding Wal.read_lines ensure_monotonic_wal
  LogPart-empty version = (Clean.nil, refl, tt)

  LogPart-after :
      (old new : Wal) (version : ℕ)
      → (new.lines ≡ []) ⊎ (new ≡ old)
      → LogPart old.lines version
      → LogPart new.lines version
  LogPart-after old new version (inl empty) h = rw empty (LogPart-empty version)
  LogPart-after old new version (inr same) h = rw (ap (λ (w : Wal). w.lines) same) h

  stored-taken :
      (after : DiskState) (kv : Kv) (term version : ℕ)
      → load_latest_snapshot after.snapshot_retention after.files ≡ some (taken term version kv)
      → All (λ e. e.version ≤ version) (Wal.read_lines fits after.wal.lines)
      → stored fits after ≡ record { kv = kv; term = term; version = version }
  unfolding baseline
  stored-taken after kv term version l c = rw l (
      replay_entries_included (record { kv = kv; term = term; version = version })
        (Wal.read_lines fits after.wal.lines) c)

  OnDisk-Taken :
      (ds after : DiskState) (kv : Kv) (term version : ℕ)
      → OnDisk fits ds kv term version
      → Taken ds term version kv after
      → OnDisk fits after kv term version
  OnDisk-Taken ds after kv term version d t =
      let l = LogPart-after ds.wal after.wal version t.log (d.clean, d.monotonic, d.capped) in
      let s = stored-taken after kv term version t.latest l.2 in
      record {
        keeps = rw t.same_retention d.keeps;
        clean = l.0;
        monotonic = l.1;
        capped = l.2;
        below = t.below;
        kv_stored = ap (λ (r : Replay). r.kv) s;
        version_stored = ap (λ (r : Replay). r.version) s;
        term_stored = omega (arith, ap (λ (r : Replay). r.term) s);
      }

  -- A snapshot of the state that is on disk changes nothing of what a restart finds.
  pub OnDisk-take :
      (io : Io) (w : Works io) (ds : DiskState) (kv : Kv) (term version : ℕ)
      → OnDisk fits ds kv term version
      → OnDisk fits (take_snapshot io ds term version kv).0 kv term version
  OnDisk-take io w ds kv term version d =
      OnDisk-Taken ds (take_snapshot io ds term version kv).0 kv term version d
        (take_snapshot_lem io w ds term version kv d.keeps d.below)

  -- An append whose version is already on disk changes nothing of what a restart finds.
  pub OnDisk-append_again :
      (ds : DiskState) (kv : Kv) (term version : ℕ) (e : Wal.Entry)
      → OnDisk fits ds kv term version
      → fits e ≡ true
      → e.version ≡ version
      → OnDisk fits (append_wal Wal.durable ds e).0 kv term version
  unfolding append_durable
  OnDisk-append_again ds kv term version e d f w =
      let b = baseline (load_latest_snapshot ds.snapshot_retention ds.files) in
      let old = Wal.read_lines fits ds.wal.lines in
      let low =
        All-map (λ x. x.version ≤ version) (λ x. x.version ≤ e.version) old (λ x h. omega arith)
          d.capped in
      let s : stored fits (append_durable ds e) ≡ stored fits ds =
        rw (read_lines-snoc fits e f d.clean) (
          replay_entries-append b old (e ∷ [])
          ∙ replay_one (replay_entries b old) e
          ∙ replay_entry_included (stored fits ds) e (omega (arith, d.version_stored))) in
      record {
        keeps = d.keeps;
        clean = Clean-snoc fits e f d.clean;
        monotonic =
            rw (lines-append ds e d.clean f) (ensure_monotonic_wal-snoc old e low d.monotonic);
        capped =
            rw (lines-append ds e d.clean f)
              (All-append (λ x. x.version ≤ version) old (e ∷ []) d.capped (omega arith, tt));
        below = d.below;
        kv_stored = ap (λ (r : Replay). r.kv) s ∙ d.kv_stored;
        version_stored = ap (λ (r : Replay). r.version) s ∙ d.version_stored;
        term_stored = rw s d.term_stored;
      }
