-- ===== src/Node/Recovery/CatchUp.antt =====
-- A follower that is behind catches up: `Recover` of node/grpc.go with node/recovery.go.
use doki.Prelude.{
  ℕ, ◌+◌, ◌≤◌, ◌<◌, ◌≡◌, refl, sym, ap, ◌∙◌, arith, false, inl, inr, Option, none, some, List, [],
  ◌∷◌, length, u64, max_u64, Bool-cases, str_eq,
}
use doki.Storage.{Store}
use doki.ReplicationLog.{Entry}
use doki.ReplicationLog.Laws.{Consecutive, EndsAt}
use doki.Wal
use doki.Node.StateMachine
use doki.Node.StateMachine.{StateMachine, StateSnapshot, apply_with_wal, apply_op}
use doki.Node.StateMachine.Laws.{apply-Applied, apply_durable, apply-EndsAt}
use doki.Node.Rpc.{op_to_proto}
use doki.Node.Recovery.{
  log_entry_to_proto, entry_from_proto, entries_to_proto, has_gap, apply_entries,
  op_type_from_proto,
}

pub some_inj {ℓ} : {A : Type ℓ} (a b : A) → some a ≡ some b → a ≡ b
some_inj a b h = ground arith

-- The store after a run of entries.
unfoldable pub perform : Store → List Entry → Option Store
perform kv [] = some kv
perform kv (e ∷ es) = elim (apply_op kv e) [ none ↦ none | some next ↦ perform next es ]

-- Terms that do not fall, from a first one on.
abbrev pub Rising : ℕ → List Entry → Type 0
Rising n [] = Unit
Rising n (e ∷ es) = (n ≤ e.term) × Rising e.term es

unfoldable pub last_term : ℕ → List Entry → ℕ
last_term n [] = n
last_term n (e ∷ es) = last_term e.term es

-- What an entry becomes on its way through a message.
sent : Entry → Entry
unfolding log_entry_to_proto entry_from_proto
sent e = entry_from_proto (log_entry_to_proto e)

sent_fields : (e : Entry) → ((sent e).term ≡ e.term) × ((sent e).version ≡ e.version)
unfolding sent
sent_fields e = (refl, refl)

-- The value of a deletion is not sent.
sent_performs : (kv : Store) (e : Entry) → apply_op kv (sent e) ≡ apply_op kv e
unfolding sent apply_op op_to_proto entry_from_proto log_entry_to_proto op_type_from_proto
sent_performs kv e = elim (Bool-cases (str_eq e.op "put")) [
  | inl put ↦ rw put
  | inr other ↦ elim (Bool-cases (str_eq e.op "delete")) [
    | inl delete ↦ rw (other, delete)
    | inr unknown ↦ rw (other, unknown)
  ]
]

pub has_gap_none :
    (b version : ℕ) (es : List Entry)
    → Consecutive b es
    → version ≤ b
    → b + length es ≤ max_u64
    → has_gap version (u64 (b + 1)) (entries_to_proto es) ≡ false
unfolding has_gap entries_to_proto log_entry_to_proto
has_gap_none b version [] c h small = refl
has_gap_none b version (e ∷ es) c h small =
    let next : u64 (u64 (b + 1) + 1) ≡ u64 (b + 1 + 1) = ap (λ n. u64 (n + 1)) (omega arith) in
    let k = has_gap_none (b + 1) version es c.1 (omega arith) (omega arith) in
    ground (arith, k, c.0, next)

-- The follower's state machine after a run of entries.
pub record Caught (sm : StateMachine) (es : List Entry) (kv : Store) (t : StateMachine)
    : Type 0 where
  pub pairs : t.kv ≡ kv
  pub version : t.version ≡ sm.version + length es
  pub term : t.term ≡ last_term sm.term es
  pub log : EndsAt t.version t.rep_log

perform-cons :
    (kv last : Store) (e : Entry) (es : List Entry)
    → perform kv (e ∷ es) ≡ some last
    → (next : Store) × (apply_op kv e ≡ some next) × (perform next es ≡ some last)
unfolding perform
perform-cons kv last e es h = ground arith

apply_entries-cons :
    (outcome : ℕ → Wal.AppendOutcome) (sm t : StateMachine) (e : Entry) (es : List Entry)
    → sm.version < e.version
    → StateMachine.apply (outcome e.version) sm (sent e) apply_with_wal ≡ (t, none)
    → apply_entries outcome sm (entries_to_proto (e ∷ es))
      ≡ apply_entries outcome t (entries_to_proto es)
unfolding apply_entries entries_to_proto log_entry_to_proto sent
apply_entries-cons outcome sm t e es h k = ground (arith, k)

apply-sent :
    (sm : StateMachine) (e : Entry) (kv : Store)
    → EndsAt sm.version sm.rep_log
    → sm.version < max_u64
    → e.version ≡ sm.version + 1
    → sm.term ≤ e.term
    → apply_op sm.kv e ≡ some kv
    → (t : StateMachine) × (StateMachine.apply Wal.durable sm (sent e) apply_with_wal ≡ (t, none))
      × (t.kv ≡ kv)
      × (t.version ≡ e.version)
      × (t.term ≡ e.term)
      × EndsAt t.version t.rep_log
apply-sent sm e kv k small next current h =
    let f = sent_fields e in
    let t = (StateMachine.apply Wal.durable sm (sent e) apply_with_wal).0 in
    let done =
      ap (λ o. (t, o))
        (apply_durable sm (sent e) apply_with_wal kv (omega (arith, f.1)) (omega (arith, f.0))
          (sent_performs sm.kv e ∙ h)) in
    let a = apply-Applied Wal.durable sm (sent e) apply_with_wal t done in
    (
      t,
      done,
      some_inj _ _ (sym (sym (sent_performs sm.kv e) ∙ a.effect) ∙ h),
      a.version ∙ f.1,
      a.term ∙ f.0,
      apply-EndsAt Wal.durable sm (sent e) apply_with_wal t k small done,
    )

pub apply_entries-Caught :
    (sm : StateMachine) (es : List Entry) (kv : Store)
    → EndsAt sm.version sm.rep_log
    → Consecutive sm.version es
    → sm.version + length es ≤ max_u64
    → Rising sm.term es
    → perform sm.kv es ≡ some kv
    → (t : StateMachine) × (apply_entries (λ _. Wal.durable) sm (entries_to_proto es) ≡ (t, none))
      × Caught sm es kv t
unfolding perform last_term apply_entries entries_to_proto
apply_entries-Caught sm [] kv k c small up h =
    (sm, refl, record { pairs = some_inj _ _ h; version = omega arith; term = refl; log = k })
apply_entries-Caught sm (e ∷ es) kv k c small up h =
    let (next, one, more) = perform-cons sm.kv kv e es h in
    let (s, done, pairs, version, term, log) = apply-sent sm e next k (omega arith) c.0 up.0 one in
    let at : s.version ≡ sm.version + 1 = version ∙ c.0 in
    let (t, rest, caught) =
      apply_entries-Caught s es kv log (rw at (c.1)) (omega arith) (rw term (up.1))
        (rw pairs more) in
    (
      t,
      apply_entries-cons (λ _. Wal.durable) sm s e es (omega (arith, c.0)) done ∙ rest,
      record {
        pairs = caught.pairs;
        version = omega (arith, caught.version);
        term = caught.term ∙ ap (λ n. last_term n es) term;
        log = caught.log;
      },
    )
