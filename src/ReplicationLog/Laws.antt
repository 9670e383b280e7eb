-- ===== src/ReplicationLog/Laws.antt =====
-- What internal/replicationlog/replicationlog.go promises to a leader that serves recoveries.
use doki.Prelude.{
  ℕ, ◌+◌, ◌≤◌, ◌<◌, List, [], ◌∷◌, ◌++◌, ◌≡◌, arith, true, length, length-append, leb, Bool-cases,
  inl, inr,
}
use doki.ReplicationLog.{Entry, Log, new, tail, append, reset}

-- The entries have the versions `b + 1`, `b + 2`, and so on.
abbrev pub Consecutive : ℕ → List Entry → Type 0
Consecutive b [] = Unit
Consecutive b (e ∷ es) = (e.version ≡ b + 1) × Consecutive (b + 1) es

pub Consecutive-snoc :
    (b : ℕ) (es : List Entry) (e : Entry)
    → Consecutive b es
    → e.version ≡ b + length es + 1
    → Consecutive b (es ++ e ∷ [])
Consecutive-snoc b [] e c h = (omega arith, tt)
Consecutive-snoc b (x ∷ es) e c h = (c.0, Consecutive-snoc (b + 1) es e c.1 (omega arith))

-- A log that ends at version `v`: consecutive entries, within the bound.
pub record EndsAt (v : ℕ) (l : Log) : Type 0 where
  pub base : ℕ
  pub chain : Consecutive base l.entries
  pub ends : base + length l.entries ≡ v
  pub room : 0 < l.max_size
  pub bounded : length l.entries ≤ l.max_size

pub new-EndsAt : (v n : ℕ) → EndsAt v (new n)
unfolding new
new-EndsAt v n = record {
  base = v;
  chain = tt;
  ends = omega arith;
  room = ground arith;
  bounded = omega arith;
}

pub reset-EndsAt : (v w : ℕ) (l : Log) → EndsAt v l → EndsAt w (reset l)
unfolding reset
reset-EndsAt v w l h = record {
  base = w;
  chain = tt;
  ends = omega arith;
  room = h.room;
  bounded = omega arith;
}

tail-chain :
    (b : ℕ) (es : List Entry) → Consecutive b es → 0 < length es → Consecutive (b + 1) (tail es)
tail-chain b [] c h = tt
tail-chain b (e ∷ es) c h = c.1

length-tail : (es : List Entry) → 0 < length es → length (tail es) + 1 ≡ length es
length-tail [] h = absurd (omega arith)
length-tail (e ∷ es) h = omega arith

append_full :
    (v b : ℕ) (l : Log) (e : Entry)
    → Consecutive b l.entries
    → b + length l.entries ≡ v
    → 0 < l.max_size
    → length l.entries ≤ l.max_size
    → e.version ≡ v + 1
    → leb l.max_size (length l.entries) ≡ true
    → EndsAt (v + 1) (append l e)
unfolding append
append_full v b l e chain ends room bounded h full =
    let t = length-tail l.entries (ground arith) in
    rw full (record {
      base = b + 1;
      chain =
          Consecutive-snoc (b + 1) (tail l.entries) e (tail-chain b l.entries chain (ground arith))
            (omega arith);
      ends = omega (arith, length-append (tail l.entries) (e ∷ []));
      room = room;
      bounded = omega (arith, length-append (tail l.entries) (e ∷ []));
    })

-- Appending the next version keeps the log consecutive and within its bound, also when the oldest
-- entry is evicted.
pub append-EndsAt :
    (v : ℕ) (l : Log) (e : Entry) → EndsAt v l → e.version ≡ v + 1 → EndsAt (v + 1) (append l e)
unfolding append
append-EndsAt v l e k h = elim (Bool-cases (leb l.max_size (length l.entries))) [
  | inl full ↦ append_full v k.base l e k.chain k.ends k.room k.bounded h full
  | inr space ↦ rw space (record {
    base = k.base;
    chain = Consecutive-snoc k.base l.entries e k.chain (omega (arith, k.ends));
    ends = omega (arith, k.ends, length-append l.entries (e ∷ []));
    room = k.room;
    bounded = ground (arith, length-append l.entries (e ∷ []));
  })
]
