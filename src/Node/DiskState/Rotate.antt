-- ===== src/Node/DiskState/Rotate.antt =====
-- `rotateSnapshots` of node/diskstate.go: where each snapshot file goes.
use doki.Prelude.{
  ℕ, zero, suc, ◌+◌, ◌-◌, ◌≤◌, ◌<◌, ◌≡◌, ◌≢◌, refl, arith, Bool, true, false, Bool-cases, inl, inr,
  leb, ◌⊎◌, ◌∙◌,
}
use native.Mathlib.Numerals.{add-one}
use doki.Snapshot.{File, absent}
use doki.Node.DiskState.{
  Files, write_file, exists, shift_one, free_next, shift_from, rotate_snapshots,
}

exists_false : (f : File) → exists f ≡ false → f ≡ absent
unfolding exists
exists_false absent h = refl
exists_false _ h = cc

at_add_one : (i : ℕ) (gs : Files) → gs (suc i) ≡ absent → gs (i + 1) ≡ absent
at_add_one i gs h = rw add-one h

-- What a rename, where the next place is free, leaves behind.
record Moved (i : ℕ) (fs gs : Files) : Type 0 where
  target : gs (i + 1) ≡ fs i
  source : gs i ≡ absent
  others : (j : ℕ) → j ≢ i → j ≢ i + 1 → gs j ≡ fs j

module _ (rename_ok : ℕ → Bool) (ok : (i : ℕ) → rename_ok i ≡ true) where
  shift_one_lem :
      (i : ℕ) (fs : Files)
      → fs (i + 1) ≡ absent
      → ((shift_one rename_ok i fs).1 ≡ true) × Moved i fs (shift_one rename_ok i fs).0
  unfolding shift_one write_file
  shift_one_lem i fs free = elim (Bool-cases (exists (fs i))) [
    | inl there ↦
        rw (there, ok i)
          (
            refl,
            record { target = ground arith; source = ground arith; others = λ j p q. ground arith },
          )
    | inr gone ↦ rw gone (
      refl,
      record {
        target = ground (arith, exists_false (fs i) gone);
        source = exists_false (fs i) gone;
        others = λ j p q. refl;
      },
    )
  ]

  -- The place above `n` is free, or is made free by the first round.
  abbrev HasRoom : ℕ → ℕ → Files → Type 0
  HasRoom retention n fs = (fs (n + 1) ≡ absent) ⊎ ((n + 1 ≡ retention) × (1 < retention))

  free_next_lem :
      (retention n : ℕ) (fs : Files)
      → HasRoom retention n fs
      → 0 < n
      → (free_next retention n fs (n + 1) ≡ absent)
        × ((j : ℕ) → j ≢ n + 1 → free_next retention n fs j ≡ fs j)
  unfolding free_next write_file
  free_next_lem retention n fs (inl free) pos = (ground arith, λ j h. ground arith)
  free_next_lem retention n fs (inr (top, many)) pos = (ground arith, λ j h. ground arith)

  -- The places after the loop has moved the files at `n`, …, 1.
  record Shifted (n : ℕ) (fs gs : Files) : Type 0 where
    first : gs 0 ≡ fs 0
    free : gs 1 ≡ absent
    moved : (j : ℕ) → 0 < j → j ≤ n → gs (j + 1) ≡ fs j
    beyond : (j : ℕ) → n + 1 < j → gs j ≡ fs j

  Shifted-suc :
      (i : ℕ) (fs fr ms gs : Files)
      → ((j : ℕ) → j ≢ suc i + 1 → fr j ≡ fs j)
      → Moved (suc i) fr ms
      → Shifted i ms gs
      → Shifted (suc i) fs gs
  Shifted-suc i fs fr ms gs same m s = record {
    first = s.first ∙ m.others 0 (omega arith) (omega arith) ∙ same 0 (omega arith);
    free = s.free;
    moved = λ j pos h. elim (Bool-cases (leb j i)) [
      | inl low ↦
          s.moved j pos (ground arith)
          ∙ m.others j (ground arith) (ground arith)
          ∙ same j (ground arith)
      | inr top ↦ last j (ground arith)
    ];
    beyond = λ j h.
        s.beyond j (omega arith) ∙ m.others j (omega arith) (omega arith) ∙ same j (omega arith);
  }
    where
      last : (j : ℕ) → j ≡ suc i → gs (j + 1) ≡ fs j
      last j e = rw e (s.beyond (suc i + 1) (omega arith) ∙ m.target ∙ same (suc i) (omega arith))

  shift_from_lem :
      (retention n : ℕ) (fs : Files)
      → HasRoom retention n fs
      → ((shift_from rename_ok retention n fs).1 ≡ true)
        × Shifted n fs (shift_from rename_ok retention n fs).0
  unfolding shift_from
  shift_from_lem retention zero fs (inl free) = (
    refl,
    record {
      first = refl;
      free = free;
      moved = λ j p h. absurd (omega arith);
      beyond = λ j h. refl;
    },
  )
  shift_from_lem retention zero fs (inr (top, many)) = absurd (omega arith)
  shift_from_lem retention (suc i) fs room =
      let f = free_next_lem retention (suc i) fs room (omega arith) in
      let fr = free_next retention (suc i) fs in
      let m = shift_one_lem (suc i) fr f.0 in
      let ms = (shift_one rename_ok (suc i) fr).0 in
      let r = shift_from_lem retention i ms (inl (at_add_one i ms m.1.source)) in
      rw (m.0) (r.0, Shifted-suc i fs fr ms (shift_from rename_ok retention i ms).0 f.1 m.1 r.1)

  leb_one_false : (n : ℕ) → 1 < n → leb n 1 ≡ false
  leb_one_false n h = ground arith

  -- Where the files end up, given where the loop has put them.
  record Rotated (retention : ℕ) (fs gs : Files) : Type 0 where
    pub free : gs 0 ≡ absent
    pub moved : (j : ℕ) → j < retention → gs (j + 1) ≡ fs j

  Rotated-of :
      (n : ℕ) (fs ms gs : Files) → 0 < n → Shifted n fs ms → Moved 0 ms gs → Rotated (n + 1) fs gs
  Rotated-of n fs ms gs pos s m = record { free = m.source; moved = to }
    where
      to : (j : ℕ) → j < n + 1 → gs (j + 1) ≡ fs j
      to zero h = m.target ∙ s.first
      to (suc j) h =
          m.others (suc j + 1) (omega arith) (omega arith)
          ∙ s.moved (suc j) (omega arith) (omega arith)

  pub rotate_snapshots_moves :
      (retention : ℕ) (fs : Files)
      → 1 < retention
      → ((rotate_snapshots rename_ok retention fs).1 ≡ true)
        × ((rotate_snapshots rename_ok retention fs).0 0 ≡ absent)
        × ((j : ℕ) → j < retention → (rotate_snapshots rename_ok retention fs).0 (j + 1) ≡ fs j)
  unfolding rotate_snapshots
  rotate_snapshots_moves retention fs many =
      let n = retention - 1 in
      let sh = shift_from_lem retention n fs (inr (omega arith, many)) in
      let ms = (shift_from rename_ok retention n fs).0 in
      let one = shift_one_lem 0 ms (sh.1.free) in
      let gs = (shift_one rename_ok 0 ms).0 in
      let r = Rotated-of n fs ms gs (omega arith) sh.1 one.1 in
      rw (leb_one_false retention many, sh.0) (one.0, r.free, λ j h. r.moved j (omega arith))

  -- Where more than one snapshot is retained and no rename fails, `rotateSnapshots` frees index 0 and
  -- moves every retained file, those at indices below the retention, one index up.
  pub rotate_snapshots_lem :
      (retention : ℕ) (fs : Files) (j : ℕ)
      → 1 < retention
      → j < retention
      → ((rotate_snapshots rename_ok retention fs).1 ≡ true)
        × ((rotate_snapshots rename_ok retention fs).0 0 ≡ absent)
        × ((rotate_snapshots rename_ok retention fs).0 (j + 1) ≡ fs j)
  rotate_snapshots_lem retention fs j many low =
      let m = rotate_snapshots_moves retention fs many in (m.0, m.1, m.2 j low)
