-- ===== src/Node/DiskState/Load.antt =====
-- `load` and the snapshots of node/diskstate.go: what a restart finds on disk.
use doki.Prelude.{
  ℕ, zero, suc, ◌+◌, ◌≤◌, ◌<◌, ◌≡◌, refl, arith, true, Bool-cases, inl, inr, ltb, le→leb, List, [],
  ◌∷◌, ◌++◌, Option, none, some, All,
}
use doki.Wal
use doki.Wal.{Wal, Line}
use doki.Snapshot
use doki.Snapshot.{Snapshot, File, absent, Loaded}
use doki.Node.DiskState.{
  Files, Replay, better, latest_from, load_latest_snapshot, monotonic_from, ensure_monotonic_wal,
  replay_entry, replay_entries,
}

-- Every retained snapshot that loads has a version of at most `v`.
abbrev pub Below : ℕ → ℕ → Files → Type 0
Below v retention fs =
    (i : ℕ) → i < retention → (s : Snapshot) → Snapshot.load (fs i) ≡ Loaded.found s → s.version ≤ v

better_keeps :
    (b : Snapshot) (l : Loaded)
    → ((s : Snapshot) → l ≡ Loaded.found s → s.version ≤ b.version)
    → better (some b) l ≡ some b
unfolding better
better_keeps b Loaded.missing h = refl
better_keeps b (Loaded.failed e) h = refl
better_keeps b (Loaded.found s) h = ground (arith, h s refl)

latest_from_keeps :
    (n i : ℕ) (fs : Files) (b : Snapshot)
    → Below b.version (i + n) fs
    → latest_from n i fs (some b) ≡ some b
unfolding latest_from
latest_from_keeps zero i fs b h = refl
latest_from_keeps (suc n) i fs b h =
    rw (better_keeps b (Snapshot.load (fs i)) (h i (omega arith)))
      (latest_from_keeps n (i + 1) fs b (λ j k. h j (omega arith)))

-- The file at index 0 is the one that `loadLatestSnapshot` chooses, if no retained file has a higher
-- version.
pub load_latest_first :
    (retention : ℕ) (fs : Files) (s : Snapshot)
    → 0 < retention
    → Snapshot.load (fs 0) ≡ Loaded.found s
    → Below s.version retention fs
    → load_latest_snapshot retention fs ≡ some s
unfolding load_latest_snapshot
load_latest_first zero fs s h f b = absurd (omega arith)
load_latest_first (suc n) fs s h f b = rw f (latest_from_keeps n 1 fs s (λ j k. b j (omega arith)))

pub replay_entries-append :
    (r : Replay) (es fs : List Wal.Entry)
    → replay_entries r (es ++ fs) ≡ replay_entries (replay_entries r es) fs
unfolding replay_entries
replay_entries-append r [] fs = refl
replay_entries-append r (e ∷ es) fs = replay_entries-append (replay_entry r e) es fs

pub replay_entry_included :
    (r : Replay) (e : Wal.Entry) → e.version ≤ r.version → replay_entry r e ≡ r
unfolding replay_entry
replay_entry_included r e h = rw (le→leb e.version r.version h)

-- Entries that the snapshot already includes are passed over.
pub replay_entries_included :
    (r : Replay) (es : List Wal.Entry)
    → All (λ e. e.version ≤ r.version) es
    → replay_entries r es ≡ r
unfolding replay_entries
replay_entries_included r [] h = refl
replay_entries_included r (e ∷ es) h =
    rw (replay_entry_included r e h.0) (replay_entries_included r es h.1)

monotonic_from-snoc :
    (last : ℕ) (es : List Wal.Entry) (e : Wal.Entry)
    → last ≤ e.version
    → All (λ x. x.version ≤ e.version) es
    → monotonic_from last es ≡ true
    → monotonic_from last (es ++ e ∷ []) ≡ true
unfolding monotonic_from
monotonic_from-snoc last [] e l h m = ground arith
monotonic_from-snoc last (x ∷ es) e l h m =
    ground (arith, monotonic_from-snoc x.version es e h.0 h.1)

pub ensure_monotonic_wal-snoc :
    (es : List Wal.Entry) (e : Wal.Entry)
    → All (λ x. x.version ≤ e.version) es
    → ensure_monotonic_wal es ≡ true
    → ensure_monotonic_wal (es ++ e ∷ []) ≡ true
unfolding ensure_monotonic_wal
ensure_monotonic_wal-snoc [] e h m = refl
ensure_monotonic_wal-snoc (x ∷ es) e h m = monotonic_from-snoc x.version es e h.0 h.1 m

-- `loadLatestSnapshot` finds a version at least as high as that of any retained file that loads.
better_found :
    (best : Option Snapshot) (s : Snapshot)
    → (b : Snapshot) × (better best (Loaded.found s) ≡ some b) × (s.version ≤ b.version)
unfolding better
better_found none s = (s, refl, omega arith)
better_found (some b) s = elim (Bool-cases (ltb b.version s.version)) [
  | inl higher ↦ (s, rw higher, omega arith)
  | inr lower ↦ (b, rw lower, ground arith)
]

better_rises :
    (b : Snapshot) (l : Loaded)
    → (c : Snapshot) × (better (some b) l ≡ some c) × (b.version ≤ c.version)
unfolding better
better_rises b Loaded.missing = (b, refl, omega arith)
better_rises b (Loaded.failed e) = (b, refl, omega arith)
better_rises b (Loaded.found s) = elim (Bool-cases (ltb b.version s.version)) [
  | inl higher ↦ (s, rw higher, ground arith)
  | inr lower ↦ (b, rw lower, omega arith)
]

latest_from_rises :
    (n i : ℕ) (fs : Files) (b : Snapshot)
    → (c : Snapshot) × (latest_from n i fs (some b) ≡ some c) × (b.version ≤ c.version)
unfolding latest_from
latest_from_rises zero i fs b = (b, refl, omega arith)
latest_from_rises (suc n) i fs b =
    let (c, e, h) = better_rises b (Snapshot.load (fs i)) in
    let (d, f, k) = latest_from_rises n (i + 1) fs c in (d, rw e f, omega arith)

latest_from_found :
    (n i j : ℕ) (fs : Files) (best : Option Snapshot) (s : Snapshot)
    → i ≤ j
    → j < i + n
    → Snapshot.load (fs j) ≡ Loaded.found s
    → (b : Snapshot) × (latest_from n i fs best ≡ some b) × (s.version ≤ b.version)
unfolding latest_from
latest_from_found zero i j fs best s h k l = absurd (omega arith)
latest_from_found (suc n) i j fs best s h k l = elim (Bool-cases (ltb i j)) [
  | inl later ↦
      latest_from_found n (i + 1) j fs (better best (Snapshot.load (fs i))) s (ground arith)
        (omega arith) l
  | inr now ↦
      let at : i ≡ j = ground arith in
      let (b, e, m) = better_found best s in
      let (c, f, o) = latest_from_rises n (i + 1) fs b in
      (c, rw (at, l, e) (rw at at f), omega arith)
]

pub load_latest_found :
    (retention j : ℕ) (fs : Files) (s : Snapshot)
    → j < retention
    → Snapshot.load (fs j) ≡ Loaded.found s
    → (b : Snapshot) × (load_latest_snapshot retention fs ≡ some b) × (s.version ≤ b.version)
unfolding load_latest_snapshot
load_latest_found retention j fs s h l =
    latest_from_found retention 0 j fs none s (omega arith) (omega arith) l
