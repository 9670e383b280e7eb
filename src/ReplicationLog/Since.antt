-- ===== src/ReplicationLog/Since.antt =====
-- `Since` of internal/replicationlog/replicationlog.go against the log's version numbers.
use doki.Prelude.{
  ℕ, ◌+◌, ◌≤◌, ◌<◌, List, [], ◌∷◌, ◌++◌, none, some, ◌≡◌, refl, arith, length, max_u64, ltb,
  Bool-cases, inl, inr, ap,
}
use doki.ReplicationLog.{Entry, Log, newer, since}
use doki.ReplicationLog.Laws.{Consecutive, EndsAt}

pub newer_all : (b v : ℕ) (es : List Entry) → Consecutive b es → v ≤ b → newer v es ≡ es
unfolding newer
newer_all b v [] c h = refl
newer_all b v (e ∷ es) c h = ground (arith, newer_all (b + 1) v es c.1 (omega arith))

-- `fresh` is what is left of `es`, entries after `b`, when those up to version `v` are taken off.
pub record Split (b v : ℕ) (es fresh : List Entry) : Type 0 where
  pub old : List Entry
  pub splits : es ≡ old ++ fresh
  pub reaches : b + length old ≡ v
  pub follows : Consecutive v fresh

Split-all : (b v : ℕ) (es : List Entry) → Consecutive b es → v ≡ b → Split b v es (newer v es)
Split-all b v es c h =
    rw (newer_all b v es c (omega arith))
      (record { old = []; splits = refl; reaches = omega arith; follows = rw h c })

newer-cons_old :
    (b v : ℕ) (e : Entry) (es : List Entry)
    → e.version ≡ b + 1
    → b < v
    → newer v (e ∷ es) ≡ newer v es
unfolding newer
newer-cons_old b v e es h k = ground arith

Split-cons :
    (b v : ℕ) (e : Entry) (es fresh : List Entry)
    → Split (b + 1) v es fresh
    → Split b v (e ∷ es) fresh
Split-cons b v e es fresh s = record {
  old = e ∷ s.old;
  splits = ap (λ l. e ∷ l) s.splits;
  reaches = omega (arith, s.reaches);
  follows = s.follows;
}

pub newer-Split :
    (b v : ℕ) (es : List Entry)
    → Consecutive b es
    → b ≤ v
    → v ≤ b + length es
    → Split b v es (newer v es)
newer-Split b v [] c h k = Split-all b v [] c (omega arith)
newer-Split b v (e ∷ es) c h k = elim (Bool-cases (ltb b v)) [
  | inl more ↦
      rw (newer-cons_old b v e es c.0 (ground arith)) (
        Split-cons b v e es (newer v es)
          (newer-Split (b + 1) v es c.1 (ground arith) (omega arith)))
  | inr same ↦ Split-all b v (e ∷ es) c (ground arith)
]

since_covered :
    (b v : ℕ) (es : List Entry) (n : ℕ)
    → Consecutive b es
    → b ≤ v
    → v < max_u64
    → since (record { entries = es; max_size = n }) v ≡ some (newer v es)
unfolding since newer
since_covered b v [] n c h k = refl
since_covered b v (e ∷ es) n c h k = ground (arith, c.0)

since_gap :
    (b v : ℕ) (e : Entry) (es : List Entry) (n : ℕ)
    → e.version ≡ b + 1
    → v < b
    → b < max_u64
    → since (record { entries = e ∷ es; max_size = n }) v ≡ none
unfolding since
since_gap b v e es n c h k = ground arith

-- A log that ends at `top` and starts after `base` answers a follower at version `v ≤ top` in full:
-- if `base ≤ v`, the answer is exactly the entries after `v`, in order and without a gap, and the
-- log is those that the follower has, up to version `v`, followed by the answer.
pub since_complete :
    (l : Log) (top v : ℕ) (k : EndsAt top l)
    → top < max_u64
    → k.base ≤ v
    → v ≤ top
    → (fresh : List Entry) × (since l v ≡ some fresh) × Split k.base v l.entries fresh
since_complete l top v k small h j = (
  newer v l.entries,
  since_covered k.base v l.entries l.max_size k.chain h (omega arith),
  newer-Split k.base v l.entries k.chain h (omega (arith, k.ends)),
)

-- A log with entries up to a version below the largest, of which it has evicted one that the follower
-- lacks, answers `(nil, false)`.
pub since_evicted :
    (l : Log) (top v : ℕ) (k : EndsAt top l)
    → top < max_u64
    → v < k.base
    → 0 < length l.entries
    → since l v ≡ none
since_evicted l top v k small h pos = go l.entries l.max_size k.chain k.ends pos
  where
    go :
        (es : List Entry) (n : ℕ)
        → Consecutive k.base es
        → k.base + length es ≡ top
        → 0 < length es
        → since (record { entries = es; max_size = n }) v ≡ none
    go [] n c e pos = absurd (omega arith)
    go (e ∷ es) n c r pos = since_gap k.base v e es n c.0 h (omega arith)
