-- ===== src/Storage.antt =====
-- internal/storage/memory/memory.go: the in-memory store of a shard replica.
-- A Go map from texts to texts is a list of pairs with one pair for each key. The program's results
-- do not depend on the order in which a map is iterated over, so the order has no meaning here.
pub mod Laws
use doki.Prelude.{String, List, [], ◌∷◌, Option, none, some, ℕ, length, if◌then◌else◌, str_eq}

abbrev pub Pairs {ℓ} : Type ℓ → Type ℓ
Pairs V = List (String × V)

module _ {ℓ} {V : Type ℓ} where
  -- `v, ok := m[k]`
  unfoldable pub lookup : Pairs V → String → Option V
  lookup [] k = none
  lookup ((j, v) ∷ m) k = if str_eq j k then some v else lookup m k

  -- `delete(m, k)`
  unfoldable pub without : Pairs V → String → Pairs V
  without [] k = []
  without ((j, v) ∷ m) k = let rest = without m k in if str_eq j k then rest else (j, v) ∷ rest

  -- `m[k] = v`
  unfoldable pub with_pair : Pairs V → String → V → Pairs V
  with_pair m k v = (k, v) ∷ without m k

abbrev pub Kv : Type 0
Kv = Pairs String

pub record Store : Type 0 where
  pub pairs : Kv

unfoldable pub new : Store
new = record { pairs = [] }

unfoldable pub get : Store → String → Option String
get s key = lookup s.pairs key

unfoldable pub put : Store → String → String → Store
put s key value = record { pairs = with_pair s.pairs key value }

unfoldable pub delete : Store → String → Store
delete s key = record { pairs = without s.pairs key }

-- The copy that `Snapshot` makes holds the same pairs.
unfoldable pub snapshot : Store → Kv
snapshot s = s.pairs

unfoldable pub apply_snapshot : Store → Kv → Store
apply_snapshot s snap = record { pairs = snap }

unfoldable pub size : Store → ℕ
size s = length s.pairs
