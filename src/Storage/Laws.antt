-- ===== src/Storage/Laws.antt =====
-- What the store of internal/storage/memory/memory.go promises to its callers.
use doki.Prelude.{
  String, [], ◌∷◌, none, some, ◌≡◌, arith, eq_iff, str_eq, str_eq_refl, if◌then◌else◌, Bool-cases,
  inl, inr,
}
use doki.Storage.{Pairs, lookup, without, with_pair}

module _ {ℓ} {V : Type ℓ} where
  pub lookup-without :
      (m : Pairs V) (k j : String)
      → lookup (without m k) j ≡ (if str_eq k j then none else lookup m j)
  unfolding lookup without
  lookup-without [] k j = ground arith
  lookup-without ((i, v) ∷ m) k j =
      ground (arith, lookup-without m k j, eq_iff i k, eq_iff i j, eq_iff k j)

  pub lookup-with_pair :
      (m : Pairs V) (k : String) (v : V) (j : String)
      → lookup (with_pair m k v) j ≡ (if str_eq k j then some v else lookup m j)
  unfolding lookup with_pair
  lookup-with_pair m k v j = ground (arith, lookup-without m k j)

-- One pair for each key.
abbrev pub IsKeyed {ℓ} : {V : Type ℓ} → Pairs V → Type ℓ
IsKeyed [] = Unit
IsKeyed ((k, v) ∷ m) = (lookup m k ≡ none) × IsKeyed m

pub without-IsKeyed {ℓ} :
    {V : Type ℓ} (m : Pairs V) (k : String) → IsKeyed m → IsKeyed (without m k)
unfolding without
without-IsKeyed [] k h = tt
without-IsKeyed ((j, v) ∷ m) k h = elim (Bool-cases (str_eq j k)) [
  | inl same ↦ rw same (without-IsKeyed m k h.1)
  | inr other ↦ rw other (ground (arith, lookup-without m k j, h.0), without-IsKeyed m k h.1)
]

pub with_pair-IsKeyed {ℓ} :
    {V : Type ℓ} (m : Pairs V) (k : String) (v : V) → IsKeyed m → IsKeyed (with_pair m k v)
unfolding with_pair
with_pair-IsKeyed m k v h =
    (ground (arith, lookup-without m k k, str_eq_refl k), without-IsKeyed m k h)
