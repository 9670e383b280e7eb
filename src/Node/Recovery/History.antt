-- ===== src/Node/Recovery/History.antt =====
-- A follower that stopped at an earlier state of the leader catches up by one exchange of `Recover` in
-- node/grpc.go with `doIncrementalRecovery` in node/recovery.go.
use doki.Prelude.{
  ℕ, ◌+◌, ◌≤◌, ◌<◌, ◌≡◌, refl, sym, ap, ◌∙◌, arith, true, none, some, List, [], ◌∷◌, ◌++◌, length,
  length-append, append_assoc, append-nil, max_u64, Bool-cases, inl, inr, leb,
}
use doki.Storage.{Store}
use doki.ReplicationLog
use doki.ReplicationLog.{Entry, Log, tail, since}
use doki.ReplicationLog.Laws.{EndsAt}
use doki.ReplicationLog.Since.{since_complete}
use doki.Wal
use doki.Node.DiskState.{Io}
use doki.Node.StateMachine.{StateMachine, ApplyMode, apply, apply_op}
use doki.Node.StateMachine.Laws.{apply-Applied}
use doki.Node.Replica.{ReplicaState, leader}
use doki.Node.Rpc.Acks.{HasLog}
use doki.Node.Recovery.{incremental, recover, do_incremental_recovery}
use doki.Node.Recovery.CatchUp.{perform, Rising, last_term}
use doki.Node.Recovery.Served.{Split-length, recover_reaches}

-- Successful calls of `Apply` lead from one state to another. Between them the term may rise, and the
-- disk may change.
pub data Applies : StateMachine → List Entry → StateMachine → Type 0 where
  none_left : {sm : StateMachine} → Applies sm [] sm
  aside :
      {sm t u : StateMachine} {es : List Entry}
      → t.kv ≡ sm.kv
      → t.version ≡ sm.version
      → t.rep_log ≡ sm.rep_log
      → sm.term ≤ t.term
      → Applies t es u
      → Applies sm es u
  applied :
      {sm t u : StateMachine} {e : Entry} {es : List Entry} (outcome : Wal.AppendOutcome)
      (mode : ApplyMode)
      → apply outcome sm e mode ≡ (t, none)
      → Applies t es u
      → Applies sm (e ∷ es) u

perform_first :
    (kv next : Store) (e : Entry) (es : List Entry)
    → apply_op kv e ≡ some next
    → perform kv (e ∷ es) ≡ perform next es
unfolding perform
perform_first kv next e es h = ground (arith, h)

Applies-perform :
    {sm u : StateMachine} {es : List Entry} → Applies sm es u → perform sm.kv es ≡ some u.kv
unfolding perform
Applies-perform none_left = refl
Applies-perform (aside kv version log term rest) = rw (sym kv) (Applies-perform rest)
Applies-perform {sm} {u} (applied {t = t} {e = e} {es = es} outcome mode h rest) =
    perform_first sm.kv t.kv e es (apply-Applied outcome sm e mode t h).effect
    ∙ Applies-perform rest

Applies-Rising :
    {sm u : StateMachine} {es : List Entry} (n : ℕ) → Applies sm es u → n ≤ sm.term → Rising n es
Applies-Rising n none_left h = tt
Applies-Rising n (aside kv version log term rest) h = Applies-Rising n rest (omega (arith, term, h))
Applies-Rising {sm} n (applied {t = t} {e = e} outcome mode done rest) h =
    let a = apply-Applied outcome sm e mode t done in
    (omega (arith, a.current, h), Applies-Rising e.term rest (omega (arith, a.term)))

-- Without a wrap-around each call takes the next version.
Applies-version :
    {sm u : StateMachine} {es : List Entry}
    → Applies sm es u
    → sm.version + length es ≤ max_u64
    → u.version ≡ sm.version + length es
Applies-version none_left small = omega arith
Applies-version (aside kv version log term rest) small =
    omega (arith, version, Applies-version rest (omega (arith, version, small)))
Applies-version {sm} (applied {t = t} {e = e} outcome mode done rest) small =
    let a = apply-Applied outcome sm e mode t done in
    let next : t.version ≡ sm.version + 1 = omega (arith, a.next, a.version, small) in
    omega (arith, next, Applies-version rest (omega (arith, next, small)))

-- The entries that a log has evicted, put back before those that it holds.
abbrev Evicted : Log → List Entry → Log → Type 0
Evicted l es m = (gone : List Entry) × (gone ++ m.entries ≡ l.entries ++ es)

append-Evicted : (l : Log) (e : Entry) → Evicted l (e ∷ []) (ReplicationLog.append l e)
unfolding ReplicationLog.append
append-Evicted l e = elim (Bool-cases (leb l.max_size (length l.entries))) [
  | inl full ↦ rw full (first l.entries)
  | inr space ↦ rw space ([], refl)
]
  where
    first :
        (xs : List Entry) → (gone : List Entry) × (gone ++ (tail xs ++ (e ∷ [])) ≡ xs ++ (e ∷ []))
    first [] = ([], refl)
    first (x ∷ xs) = (x ∷ [], refl)

Applies-Evicted :
    {sm u : StateMachine} {es : List Entry} → Applies sm es u → Evicted sm.rep_log es u.rep_log
Applies-Evicted none_left = ([], sym (append-nil _))
Applies-Evicted (aside kv version log term rest) = rw (sym log) (Applies-Evicted rest)
Applies-Evicted {sm} {u} (applied {t = t} {e = e} {es = es} outcome mode done rest) =
    let a = apply-Applied outcome sm e mode t done in
    let (one, first) = append-Evicted sm.rep_log e in
    let (more, then) = Applies-Evicted rest in
    (
      one ++ more,
      append_assoc one more u.rep_log.entries
          ∙ ap (λ x. one ++ x) then
          ∙ sym (append_assoc one t.rep_log.entries es)
          ∙ ap (λ x. x ++ es) (ap (λ (m : Log). one ++ m.entries) a.log ∙ first)
          ∙ append_assoc sm.rep_log.entries (e ∷ []) es,
    )

-- Two ends of a list that are as long as each other are the same.
same_end : (xs ys us vs : List Entry) → xs ++ us ≡ ys ++ vs → length us ≡ length vs → us ≡ vs
same_end [] [] us vs h n = h
same_end [] (y ∷ ys) us vs h n = absurd (omega (arith, n, ap length h, length-append ys vs))
same_end (x ∷ xs) [] us vs h n = absurd (omega (arith, n, ap length h, length-append xs us))
same_end (x ∷ xs) (y ∷ ys) us vs h n = same_end xs ys us vs (ap tail h) n

-- What the leader's log has after an earlier version is what has been applied since.
Applies-since :
    (l before : StateMachine) (es : List Entry) (k : EndsAt l.version l.rep_log)
    → Applies before es l
    → before.version + length es < max_u64
    → k.base ≤ before.version
    → since l.rep_log before.version ≡ some es
Applies-since l before es k applies small low =
    let version = Applies-version applies (omega (arith, small)) in
    let (fresh, found, split) =
      since_complete l.rep_log l.version before.version k (omega (arith, version, small)) low
        (omega (arith, version)) in
    let (gone, all) = Applies-Evicted applies in
    found
    ∙ ap some (
        same_end (gone ++ split.old) before.rep_log.entries fresh es
          (append_assoc gone split.old fresh ∙ ap (λ x. gone ++ x) (sym split.splits) ∙ all)
          (omega (
            arith,
            version,
            Split-length k.base before.version l.version l.rep_log.entries fresh split k.ends,
          )))

-- A follower with a store and a version that the leader once had, when its term was not below the
-- follower's, and that the leader's log still reaches, has after one exchange the leader's store and
-- version, and the term of the last entry applied since, is ready, and has a log that ends at its
-- version, if its disk takes the entries. Both logs end at the versions of their replicas before, the
-- leader has changed its store by `Apply` alone since, and no version wraps around.
pub recover_catches_up :
    (l f : ReplicaState) (io : Io) (before : StateMachine) (es : List Entry) (k : HasLog l)
    → Applies before es l.sm
    → f.sm.kv ≡ before.kv
    → f.version ≡ before.version
    → f.term ≤ before.term
    → HasLog f
    → l.role ≡ leader
    → k.base ≤ f.version
    → before.version + length es < max_u64
    → (s : ReplicaState) × (do_incremental_recovery (λ _. Wal.durable) io f (recover l f.version)
        ≡ (s, incremental))
      × (s.sm.kv ≡ l.sm.kv)
      × (s.version ≡ l.version)
      × (s.term ≡ last_term f.term es)
      × (s.is_ready ≡ true)
      × HasLog s
recover_catches_up l f io before es k applies kv version term log lead low small =
    let count = Applies-version applies (omega (arith, small)) in
    recover_reaches l f io es k log lead (omega (arith, count, small)) low
      (omega (arith, count, version))
      (rw version (Applies-since l.sm before es k applies small (omega (arith, low, version))))
      (Applies-Rising f.term applies term) (rw kv (Applies-perform applies))
