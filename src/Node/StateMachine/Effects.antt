-- ===== src/Node/StateMachine/Effects.antt =====
-- What a successful `Apply` of node/statemachine.go shows to readers of the store and of the logs.
use doki.Prelude.{
  ◌+◌, ◌≤◌, String, Option, none, some, ◌≡◌, refl, sym, arith, u64, inl, inr, List, [], ◌∷◌, ◌++◌,
  length, Bool-cases, leb, str_eq, if◌then◌else◌, eq_iff,
}
use doki.Storage
use doki.Storage.{Store}
use doki.Storage.Laws.{lookup-with_pair, lookup-without}
use doki.ReplicationLog
use doki.ReplicationLog.{Entry, Log, tail}
use doki.Wal
use doki.Node.DiskState
use doki.Node.DiskState.{DiskState}
use doki.Node.StateMachine
use doki.Node.StateMachine.{
  StateMachine, ApplyMode, Err, apply, apply_op, log_to_disk, get, apply_with_wal,
  apply_without_wal,
}
use doki.Node.StateMachine.Laws.{IsOp, apply-Applied}

-- The last line of the write-ahead log is the entry, in the mode with it and where there is a disk.
abbrev pub Logged : ApplyMode → Option DiskState → Entry → Option DiskState → Type 0
Logged apply_with_wal (some before) e after =
    (ds : DiskState) × (after ≡ some ds)
    × (ds.wal.lines
        ≡ before.wal.lines
          ++ (Wal.written (record {
            term = e.term;
            version = e.version;
            op = e.op;
            key = e.key;
            value = e.value;
          })
              ∷ []))
    × (ds.writes_since_snapshot ≡ before.writes_since_snapshot + 1)
Logged apply_with_wal none e after = after ≡ none
Logged apply_without_wal before e after = after ≡ before

-- The replication log ends with the entry, behind the newest of those that it had.
abbrev pub Kept : Log → Entry → Log → Type 0
Kept before e after =
    (evicted : List Entry) × (kept : List Entry) × (evicted ++ kept ≡ before.entries)
    × (after.entries ≡ kept ++ (e ∷ []))
    × (length evicted ≤ 1)

-- What is seen of a state machine that has performed an entry.
pub record Performed (sm : StateMachine) (e : Entry) (mode : ApplyMode) (t : StateMachine)
    : Type 0 where
  pub next : e.version ≡ u64 (sm.version + 1)
  pub current : sm.term ≤ e.term
  pub known : IsOp e.op
  pub pairs :
      (k : String)
      → get t k
        ≡ (if str_eq e.key k then (if str_eq e.op "put" then some e.value else none) else get sm k)
  pub version : t.version ≡ e.version
  pub term : t.term ≡ e.term
  pub log : Kept sm.rep_log e t.rep_log
  pub disk : Logged mode sm.ds e t.ds

append_wal-Logged :
    (outcome : Wal.AppendOutcome) (before : DiskState) (e : Entry) (after : Option DiskState)
    → log_to_disk outcome apply_with_wal (some before) e ≡ (after, none)
    → Logged apply_with_wal (some before) e after
unfolding log_to_disk Wal.append DiskState.append_wal StateMachine.wal_entry_from
append_wal-Logged Wal.durable before e after h = ground (arith, h)
append_wal-Logged Wal.nothing_written before e after h = ground (arith, h)
append_wal-Logged Wal.partly_written before e after h = ground (arith, h)
append_wal-Logged Wal.not_synced before e after h = ground (arith, h)

log_to_disk-Logged :
    (outcome : Wal.AppendOutcome) (mode : ApplyMode) (before : Option DiskState) (e : Entry)
    (after : Option DiskState)
    → log_to_disk outcome mode before e ≡ (after, none)
    → Logged mode before e after
unfolding log_to_disk
log_to_disk-Logged outcome apply_with_wal (some before) e after h =
    append_wal-Logged outcome before e after h
log_to_disk-Logged outcome apply_with_wal none e after h = ground (arith, h)
log_to_disk-Logged outcome apply_without_wal before e after h = ground (arith, h)

some_inj : (a b : Store) → some a ≡ some b → a ≡ b
some_inj a b h = ground arith

put-get :
    (kv : Store) (key value k : String)
    → Storage.get (Storage.put kv key value) k
      ≡ (if str_eq key k then some value else Storage.get kv k)
unfolding Storage.put Storage.get
put-get kv key value k = lookup-with_pair kv.pairs key value k

delete-get :
    (kv : Store) (key k : String)
    → Storage.get (Storage.delete kv key) k ≡ (if str_eq key k then none else Storage.get kv k)
unfolding Storage.delete Storage.get
delete-get kv key k = lookup-without kv.pairs key k

apply_op-get :
    (kv after : Store) (e : Entry)
    → apply_op kv e ≡ some after
    → IsOp e.op
      × ((k : String)
          → Storage.get after k ≡ (
              if str_eq e.key k
              then (if str_eq e.op "put" then some e.value else none)
              else Storage.get kv k))
unfolding apply_op
apply_op-get kv after e h = elim (Bool-cases (str_eq e.op "put")) [
  | inl put ↦ (
    inl ((eq_iff e.op "put").0 put),
    λ k. rw (put, sym (some_inj _ _ (rw put at h))) (put-get kv e.key e.value k),
  )
  | inr other ↦ elim (Bool-cases (str_eq e.op "delete")) [
    | inl delete ↦ (
      inr ((eq_iff e.op "delete").0 delete),
      λ k. rw (other, sym (some_inj _ _ (rw (other, delete) at h))) (delete-get kv e.key k),
    )
    | inr unknown ↦ cc (rw (other, unknown) at h)
  ]
]

append-Kept : (l : Log) (e : Entry) → Kept l e (ReplicationLog.append l e)
unfolding ReplicationLog.append
append-Kept l e = elim (Bool-cases (leb l.max_size (length l.entries))) [
  | inl full ↦ rw full (first l.entries)
  | inr space ↦ rw space ([], l.entries, refl, refl, omega arith)
]
  where
    first :
        (xs : List Entry)
        → (evicted : List Entry) × (kept : List Entry) × (evicted ++ kept ≡ xs)
          × (tail xs ++ (e ∷ []) ≡ kept ++ (e ∷ []))
          × (length evicted ≤ 1)
    first [] = ([], [], refl, refl, omega arith)
    first (x ∷ xs) = (x ∷ [], xs, refl, refl, omega arith)

-- A successful `Apply` took the next version, of a term that is not stale, for a put or a delete: the
-- key then has the value, or none, and every other key what it had. The replication log ends with the
-- entry, behind all that it had but at most one evicted entry. In the mode with the write-ahead log
-- and where there is a disk, the entry is the last line of that log, behind all that it had; else the
-- disk is as it was.
pub apply-Performed :
    (outcome : Wal.AppendOutcome) (sm : StateMachine) (e : Entry) (mode : ApplyMode)
    (t : StateMachine)
    → apply outcome sm e mode ≡ (t, none)
    → Performed sm e mode t
unfolding get
apply-Performed outcome sm e mode t h =
    let a = apply-Applied outcome sm e mode t h in
    let (known, pairs) = apply_op-get sm.kv t.kv e a.effect in
    record {
      next = a.next;
      current = a.current;
      known = known;
      pairs = pairs;
      version = a.version;
      term = a.term;
      log = rw a.log (append-Kept sm.rep_log e);
      disk = log_to_disk-Logged outcome mode sm.ds e t.ds a.disk;
    }
