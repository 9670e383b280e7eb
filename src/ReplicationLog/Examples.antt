-- ===== src/ReplicationLog/Examples.antt =====
-- The theorems about internal/replicationlog/replicationlog.go at small logs.
use doki.Prelude.{ℕ, ◌≡◌, refl, arith, List, [], ◌∷◌, some}
use doki.ReplicationLog.{Entry, Log, since}
use doki.ReplicationLog.Laws.{EndsAt}
use doki.ReplicationLog.Since.{Split, since_complete}

abbrev put_at : ℕ → Entry
put_at version = record { term = 1; version = version; op = "put"; key = "a"; value = "x" }

-- A log for two entries that has evicted the first three.
abbrev two : Log
two = record { entries = put_at 4 ∷ put_at 5 ∷ []; max_size = 2 }

abbrev two_ends : EndsAt 5 two
two_ends = record {
  base = 3;
  chain = (refl, (refl, tt));
  ends = refl;
  room = omega arith;
  bounded = omega arith;
}

since_complete_example :
    (fresh : List Entry) × (since two 4 ≡ some fresh) × Split 3 4 two.entries fresh
since_complete_example = since_complete two 5 4 two_ends (omega arith) (omega arith) (omega arith)
