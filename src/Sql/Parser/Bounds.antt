-- ===== src/Sql/Parser/Bounds.antt =====
-- What the parts of internal/sql/parser.go that parse lists, comparisons and columns consume.
use doki.Prelude.{
  ℕ, zero, suc, ◌<◌, ◌≤◌, arith, String, Bool, true, false, Bool-cases, inl, inr, List, [], ◌∷◌,
  length, str_eq,
}
use doki.Sql.Ast.{Expr, ColumnDef, ColumnType}
use doki.Sql.Parser.{
  Token, Parse, parsed, syntax_err, out_of_fuel, and_then, check, advance, expect, list_of,
  is_comparison, compare_rest, compare_with, parse_column_type, constraints, parse_column_def,
}

-- The fuel was enough, and fewer than `k` tokens are left, if there is no error.
abbrev pub IsWithin {ℓ} : {A : Type ℓ} → ℕ → Parse A → Type 0
IsWithin k (parsed x rest) = length rest < k
IsWithin k syntax_err = Unit
IsWithin k out_of_fuel = ⊥

pub and_then-IsWithin {ℓ κ} :
    {A : Type ℓ} {B : Type κ} (k m : ℕ) (p : Parse A) (next : A → List Token → Parse B)
    → IsWithin k p
    → ((x : A) (rest : List Token) → length rest < k → IsWithin m (next x rest))
    → IsWithin m (and_then p next)
unfolding and_then
and_then-IsWithin k m (parsed x rest) next h f = f x rest h
and_then-IsWithin k m syntax_err next h f = tt
and_then-IsWithin k m out_of_fuel next h f = h

pub weaken {ℓ} : {A : Type ℓ} (k m : ℕ) (p : Parse A) → k ≤ m → IsWithin k p → IsWithin m p
weaken k m (parsed x rest) le h = omega (arith, le, h)
weaken k m syntax_err le h = tt
weaken k m out_of_fuel le h = h

-- A parser takes at least one of at most `n` tokens.
abbrev pub IsProper {ℓ} : {A : Type ℓ} → ℕ → (List Token → Parse A) → Type 0
IsProper n p = (ts : List Token) → length ts < n → IsWithin (length ts) (p ts)

pub expect-IsWithin : (type : String) (ts : List Token) → IsWithin (length ts) (expect type ts)
unfolding expect
expect-IsWithin type [] = tt
expect-IsWithin type (t ∷ ts) = elim (Bool-cases (str_eq t.ttype type)) [
  | inl same ↦ rw same (omega arith)
  | inr other ↦ rw other tt
]

pub advance_le : (ts : List Token) → length (advance ts) ≤ length ts
unfolding advance
advance_le [] = omega arith
advance_le (t ∷ ts) = omega arith

-- A step of a chain: after the expected token the rest of the chain is run on fewer tokens.
pub then_expect {ℓ} :
    {B : Type ℓ} (type : String) (n m : ℕ) (ts : List Token) (next : String → List Token → Parse B)
    → length ts < n
    → ((x : String) (rest : List Token)
        → length rest < length ts
        → length rest < n
        → IsWithin m (next x rest))
    → IsWithin m (and_then (expect type ts) next)
then_expect type n m ts next h f =
    and_then-IsWithin (length ts) m (expect type ts) next (expect-IsWithin type ts)
      (λ x rest less. f x rest less (omega (arith, h, less)))

pub list_of-IsProper {ℓ} :
    {A : Type ℓ} (item : List Token → Parse A) (m n : ℕ) (ts : List Token)
    → IsProper m item
    → length ts < m
    → length ts < n
    → IsWithin (length ts) (list_of item n ts)
unfolding list_of
list_of-IsProper item m zero ts proper h k = absurd (omega (arith, k))
list_of-IsProper item m (suc n) ts proper h k =
    and_then-IsWithin (length ts) (length ts) (item ts) _ (proper ts h) (λ x rest less.
      elim (Bool-cases (check "," rest)) [
        | inl comma ↦
            let le = advance_le rest in
            rw comma (
              and_then-IsWithin (length (advance rest)) (length ts) (list_of item n (advance rest))
                _
                (list_of-IsProper item m n (advance rest) proper (omega (arith, le, less, h))
                  (omega (arith, le, less, k)))
                (λ xs after fewer. omega (arith, fewer, le, less)))
        | inr last ↦ rw last less
      ])

pub compare_rest-IsWithin :
    (primary : List Token → Parse Expr) (n : ℕ) (left : Expr) (ts : List Token)
    → IsProper n primary
    → length ts < n
    → IsWithin (suc (length ts)) (compare_rest primary left ts)
unfolding compare_rest
compare_rest-IsWithin primary n left [] proper h = omega arith
compare_rest-IsWithin primary n left (t ∷ ts) proper h = elim (Bool-cases (is_comparison t.ttype)) [
  | inl compared ↦ rw compared (
      and_then-IsWithin (length ts) (suc (suc (length ts))) (primary ts) _
        (proper ts (omega (arith, h))) (λ right rest less. omega (arith, less)))
  | inr other ↦ rw other (omega arith)
]

pub compare_with-IsWithin :
    (primary : List Token → Parse Expr) (n : ℕ) (ts : List Token)
    → IsProper n primary
    → length ts < n
    → IsWithin (length ts) (compare_with primary ts)
unfolding compare_with
compare_with-IsWithin primary n ts proper h =
    and_then-IsWithin (length ts) (length ts) (primary ts) _ (proper ts h) (λ left rest less.
      weaken (suc (length rest)) (length ts) (compare_rest primary left rest) (omega (arith, less))
        (compare_rest-IsWithin primary n left rest proper (omega (arith, h, less))))

parse_column_type-IsWithin : (ts : List Token) → IsWithin (length ts) (parse_column_type ts)
unfolding parse_column_type
parse_column_type-IsWithin [] = tt
parse_column_type-IsWithin (t ∷ ts) = elim (Bool-cases (str_eq t.ttype "INT")) [
  | inl a ↦ rw a (omega arith)
  | inr b ↦ elim (Bool-cases (str_eq t.ttype "TEXT")) [
    | inl c ↦ rw b (rw c (omega arith))
    | inr d ↦ elim (Bool-cases (str_eq t.ttype "BOOL")) [
      | inl e ↦ rw b (rw d (rw e (omega arith)))
      | inr f ↦ rw b (rw d (rw f tt))
    ]
  ]
]

-- A constraint of two tokens, and the constraints after it.
then_constraint :
    (type : String) (n : ℕ) (ts : List Token) (next : List Token → Parse ColumnDef)
    → length ts < suc n
    → ((rest : List Token) → length rest < n → IsWithin (suc (length rest)) (next rest))
    → IsWithin (suc (length ts)) (and_then (expect type (advance ts)) (λ l rest. next rest))
then_constraint type n ts next h f =
    let le = advance_le ts in
    and_then-IsWithin (length (advance ts)) (suc (length ts)) (expect type (advance ts)) _
      (expect-IsWithin type (advance ts))
      (λ l rest less.
        weaken (suc (length rest)) (suc (length ts)) (next rest) (omega (arith, le, less))
          (f rest (omega (arith, le, less, h))))

constraints-IsWithin :
    (n : ℕ) (name : String) (ct : ColumnType) (pk nn : Bool) (ts : List Token)
    → length ts < n
    → IsWithin (suc (length ts)) (constraints n name ct pk nn ts)
unfolding constraints
constraints-IsWithin zero name ct pk nn ts h = absurd (omega (arith, h))
constraints-IsWithin (suc n) name ct pk nn ts h = elim (Bool-cases (check "PRIMARY" ts)) [
  | inl primary ↦ rw primary (
      then_constraint "KEY" n ts (constraints n name ct true nn) h
        (λ rest less. constraints-IsWithin n name ct true nn rest less))
  | inr other ↦ elim (Bool-cases (check "NOT" ts)) [
    | inl not_null ↦ rw other (
        rw not_null (
          then_constraint "NULL" n ts (constraints n name ct pk true) h
            (λ rest less. constraints-IsWithin n name ct pk true rest less)))
    | inr last ↦ rw other (rw last (omega arith))
  ]
]

pub parse_column_def-IsProper : (n : ℕ) → IsProper n (parse_column_def n)
unfolding parse_column_def
parse_column_def-IsProper n ts h = then_expect "IDENT" n (length ts) ts _ h (λ name rest less small.
    and_then-IsWithin (length rest) (length ts) (parse_column_type rest) _
      (parse_column_type-IsWithin rest)
      (λ ct more fewer.
        weaken (suc (length more)) (length ts) (constraints n name ct false false more)
          (omega (arith, less, fewer))
          (constraints-IsWithin n name ct false false more (omega (arith, small, fewer)))))
