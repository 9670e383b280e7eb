-- ===== src/Node/StateMachine/Laws.antt =====
-- `Apply` and `ApplySnapshot` of node/statemachine.go, branch by branch.
use doki.Prelude.{
  ◌+◌, ◌≤◌, ◌<◌, String, Option, none, some, ◌≡◌, refl, sym, ap, ◌∙◌, arith, u64, max_u64, ◌⊎◌, inl,
  inr, Bool-cases, Option-cases, ltb, ◌==◌, ==_iff, le→ltb_false,
}
use doki.Storage
use doki.Storage.{Store}
use doki.ReplicationLog
use doki.ReplicationLog.{Entry, Log}
use doki.ReplicationLog.Laws.{EndsAt, append-EndsAt}
use doki.Wal
use doki.Node.DiskState
use doki.Node.DiskState.{DiskState, Io}
use doki.Node.StateMachine.{
  StateMachine, ApplyMode, Err, apply, apply_op, log_to_disk, after_log, apply_with_wal,
  apply_without_wal,
}

-- What a successful `Apply` has done.
pub record Applied (sm : StateMachine) (e : Entry) (mode : ApplyMode) (outcome : Wal.AppendOutcome)
    (t : StateMachine) : Type 0 where
  pub next : e.version ≡ u64 (sm.version + 1)
  pub current : sm.term ≤ e.term
  pub effect : apply_op sm.kv e ≡ some t.kv
  pub version : t.version ≡ e.version
  pub term : t.term ≡ e.term
  pub log : t.rep_log ≡ ReplicationLog.append sm.rep_log e
  pub disk : log_to_disk outcome mode sm.ds e ≡ (t.ds, none)

after_log_lem :
    (s : StateMachine) (e : Entry) (f : Option Err) (t : StateMachine)
    → after_log s e f ≡ (t, none)
    → (f ≡ none)
      × (apply_op s.kv e ≡ some t.kv)
      × (t.version ≡ e.version)
      × (t.term ≡ e.term)
      × (t.rep_log ≡ ReplicationLog.append s.rep_log e)
      × (t.ds ≡ s.ds)
unfolding after_log
after_log_lem s e f t h = ground arith

after_log_err :
    (s : StateMachine) (e : Entry) (f : Option Err) (t : StateMachine) {x : Err}
    → after_log s e f ≡ (t, some x)
    → t ≡ s
unfolding after_log
after_log_err s e f t h = ground arith

-- The part of `Apply` behind its two tests.
unfoldable pub accepted :
    Wal.AppendOutcome → StateMachine → Entry → ApplyMode → StateMachine × Option Err
unfolding after_log log_to_disk
accepted outcome sm e mode =
    let (ds, failure) = log_to_disk outcome mode sm.ds e in
    after_log (record sm { ds = ds }) e failure

pub apply-accepted :
    (outcome : Wal.AppendOutcome) (sm : StateMachine) (e : Entry) (mode : ApplyMode)
    → e.version ≡ u64 (sm.version + 1)
    → sm.term ≤ e.term
    → apply outcome sm e mode ≡ accepted outcome sm e mode
unfolding apply accepted
apply-accepted outcome sm e mode h k =
    rw ((==_iff e.version (u64 (sm.version + 1))).1 h, le→ltb_false sm.term e.term k)

pub apply_tests :
    (outcome : Wal.AppendOutcome) (sm : StateMachine) (e : Entry) (mode : ApplyMode)
    (t : StateMachine)
    → apply outcome sm e mode ≡ (t, none)
    → (e.version ≡ u64 (sm.version + 1)) × (sm.term ≤ e.term)
unfolding apply
apply_tests outcome sm e mode t h = elim (Bool-cases (e.version == u64 (sm.version + 1))) [
  | inl next ↦ elim (Bool-cases (ltb e.term sm.term)) [
    | inl stale ↦ cc (rw (next, stale) at h)
    | inr current ↦ ((==_iff e.version (u64 (sm.version + 1))).0 next, ground arith)
  ]
  | inr skip ↦ cc (rw skip at h)
]

accepted_lem :
    (outcome : Wal.AppendOutcome) (sm : StateMachine) (e : Entry) (mode : ApplyMode)
    (t : StateMachine)
    → accepted outcome sm e mode ≡ (t, none)
    → ((log_to_disk outcome mode sm.ds e).1 ≡ none)
      × (apply_op sm.kv e ≡ some t.kv)
      × (t.version ≡ e.version)
      × (t.term ≡ e.term)
      × (t.rep_log ≡ ReplicationLog.append sm.rep_log e)
      × (t.ds ≡ (log_to_disk outcome mode sm.ds e).0)
unfolding accepted
accepted_lem outcome sm e mode t h =
    let l = log_to_disk outcome mode sm.ds e in after_log_lem (record sm { ds = l.0 }) e l.1 t h

-- A successful `Apply` took the next version, of a term that is not stale, performed its operation,
-- and appended the entry to both logs.
pub apply-Applied :
    (outcome : Wal.AppendOutcome) (sm : StateMachine) (e : Entry) (mode : ApplyMode)
    (t : StateMachine)
    → apply outcome sm e mode ≡ (t, none)
    → Applied sm e mode outcome t
apply-Applied outcome sm e mode t h =
    let tests = apply_tests outcome sm e mode t h in
    let l = log_to_disk outcome mode sm.ds e in
    let done =
      accepted_lem outcome sm e mode t
        (sym (apply-accepted outcome sm e mode tests.0 tests.1) ∙ h) in
    record {
      next = tests.0;
      current = tests.1;
      effect = done.1;
      version = done.2;
      term = done.3;
      log = done.4;
      disk = cc (done.0, done.5);
    }

-- A call of `Apply` that returns an error leaves the store, the version, the term and the
-- replication log as they were; only the disk may have changed.
pub apply_error_keeps :
    (outcome : Wal.AppendOutcome) (sm : StateMachine) (e : Entry) (mode : ApplyMode)
    (t : StateMachine) {x : Err}
    → apply outcome sm e mode ≡ (t, some x)
    → (t.kv ≡ sm.kv) × (t.version ≡ sm.version) × (t.term ≡ sm.term) × (t.rep_log ≡ sm.rep_log)
unfolding apply
apply_error_keeps outcome sm e mode t h = ground arith

abbrev pub IsOp : String → Type 0
IsOp op = (op ≡ "put") ⊎ (op ≡ "delete")

pub apply_op_total : (kv : Store) (e : Entry) → IsOp e.op → (t : Store) × (apply_op kv e ≡ some t)
unfolding apply_op
apply_op_total kv e (inl p) = (Storage.put kv e.key e.value, rw p)
apply_op_total kv e (inr d) = (Storage.delete kv e.key, rw d)

-- A successful `Apply` keeps the replication log consecutive up to the version.
pub apply-EndsAt :
    (outcome : Wal.AppendOutcome) (sm : StateMachine) (e : Entry) (mode : ApplyMode)
    (t : StateMachine)
    → EndsAt sm.version sm.rep_log
    → sm.version < max_u64
    → apply outcome sm e mode ≡ (t, none)
    → EndsAt t.version t.rep_log
apply-EndsAt outcome sm e mode t k small h =
    let a = apply-Applied outcome sm e mode t h in
    let next : e.version ≡ sm.version + 1 = omega (arith, a.next) in
    let grown : t.version ≡ sm.version + 1 = omega (arith, a.version, next) in
    rw (grown, a.log) (append-EndsAt sm.version sm.rep_log e k next)

-- No call of `Apply` lowers the term.
pub term-le-apply :
    (outcome : Wal.AppendOutcome) (sm : StateMachine) (e : Entry) (mode : ApplyMode)
    → sm.term ≤ (apply outcome sm e mode).0.term
unfolding apply
term-le-apply outcome sm e mode = ground arith

-- Every call of `Apply`, failed or not, keeps the log consecutive up to the version.
pub apply_any-EndsAt :
    (outcome : Wal.AppendOutcome) (sm : StateMachine) (e : Entry) (mode : ApplyMode)
    → sm.version < max_u64
    → EndsAt sm.version sm.rep_log
    → EndsAt (apply outcome sm e mode).0.version (apply outcome sm e mode).0.rep_log
apply_any-EndsAt outcome sm e mode small k =
    let t = (apply outcome sm e mode).0 in
    elim (Option-cases (apply outcome sm e mode).1) [
      | inl fine ↦ apply-EndsAt outcome sm e mode t k small (ap (λ o. (t, o)) fine)
      | inr (x, failed) ↦
          let s = apply_error_keeps outcome sm e mode t (ap (λ o. (t, o)) failed) in rw (s.1, s.3) k
    ]

log_to_disk_durable :
    (mode : ApplyMode) (ds : Option DiskState) (e : Entry)
    → (log_to_disk Wal.durable mode ds e).1 ≡ none
unfolding log_to_disk DiskState.append_wal Wal.append
log_to_disk_durable apply_with_wal (some ds) e = refl
log_to_disk_durable apply_with_wal none e = refl
log_to_disk_durable apply_without_wal ds e = refl

after_log_succeeds :
    (sm : StateMachine) (e : Entry) (kv : Store)
    → apply_op sm.kv e ≡ some kv
    → (after_log sm e none).1 ≡ none
unfolding after_log
after_log_succeeds sm e kv h = rw h

accepted_succeeds :
    (sm : StateMachine) (e : Entry) (mode : ApplyMode) (kv : Store)
    → apply_op sm.kv e ≡ some kv
    → (accepted Wal.durable sm e mode).1 ≡ none
unfolding accepted
accepted_succeeds sm e mode kv h =
    rw (log_to_disk_durable mode sm.ds e)
      (after_log_succeeds (record sm { ds = (log_to_disk Wal.durable mode sm.ds e).0 }) e kv h)

-- An entry that `Apply` can perform goes through, if the disk takes it.
pub apply_durable :
    (sm : StateMachine) (e : Entry) (mode : ApplyMode) (kv : Store)
    → e.version ≡ u64 (sm.version + 1)
    → sm.term ≤ e.term
    → apply_op sm.kv e ≡ some kv
    → (apply Wal.durable sm e mode).1 ≡ none
apply_durable sm e mode kv next current h =
    rw (apply-accepted Wal.durable sm e mode next current) (accepted_succeeds sm e mode kv h)

-- `Apply` takes every put and delete of the next version whose term is not stale, if the disk does.
pub apply_succeeds :
    (sm : StateMachine) (e : Entry) (mode : ApplyMode)
    → e.version ≡ u64 (sm.version + 1)
    → sm.term ≤ e.term
    → IsOp e.op
    → (apply Wal.durable sm e mode).1 ≡ none
apply_succeeds sm e mode next current known =
    let (kv, h) = apply_op_total sm.kv e known in apply_durable sm e mode kv next current h
