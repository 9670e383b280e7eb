-- ===== src/Sql/Parser/Pieces.antt =====
-- What the parts of internal/sql/parser.go without expressions consume.
use doki.Prelude.{
  ℕ, suc, ◌<◌, ◌≤◌, ◌≡◌, refl, arith, String, Bool, true, false, Bool-cases, inl, inr, ◌⊎◌, List,
  length, if◌then◌else◌,
}
use doki.Sql.Ast.{Expr, Statement, create_table}
use doki.Sql.Parser.{
  Token, Parse, parsed, syntax_err, out_of_fuel, and_then, check, advance, expect, skip, ended,
  list_of, parse_column_def, parse_create_table, column_list,
}
use doki.Sql.Parser.Bounds.{
  IsWithin, IsProper, and_then-IsWithin, expect-IsWithin, advance_le, then_expect, list_of-IsProper,
  parse_column_def-IsProper,
}

skip_le : (type : String) (ts : List Token) → length (skip type ts) ≤ length ts
unfolding skip
skip_le type ts = elim (Bool-cases (check type ts)) [
  | inl here ↦ rw here (advance_le ts)
  | inr other ↦ rw other (omega arith)
]

pub ended-IsWithin :
    (k : ℕ) (s : Statement) (ts : List Token) → length ts < k → IsWithin k (ended s ts)
unfolding ended
ended-IsWithin k s ts h = let le = skip_le ";" ts in omega (arith, h, le)

-- A list inside a statement, and what follows it.
pub then_list {ℓ κ} :
    {A : Type ℓ} {B : Type κ} (item : List Token → Parse A) (n m : ℕ) (ts : List Token)
    (next : List A → List Token → Parse B)
    → IsProper n item
    → length ts < n
    → ((xs : List A) (rest : List Token) → length rest < n → IsWithin m (next xs rest))
    → IsWithin m (and_then (list_of item n ts) next)
then_list item n m ts next proper h f =
    and_then-IsWithin (length ts) m (list_of item n ts) next
      (list_of-IsProper item n n ts proper h h) (λ xs rest less. f xs rest (omega (arith, h, less)))

-- The same, for a part that is proper.
pub then_part {ℓ κ} :
    {A : Type ℓ} {B : Type κ} (item : List Token → Parse A) (n m : ℕ) (ts : List Token)
    (next : A → List Token → Parse B)
    → IsProper n item
    → length ts < n
    → ((x : A) (rest : List Token) → length rest < n → IsWithin m (next x rest))
    → IsWithin m (and_then (item ts) next)
then_part item n m ts next proper h f =
    and_then-IsWithin (length ts) m (item ts) next (proper ts h)
      (λ x rest less. f x rest (omega (arith, h, less)))

pub parse_create_table-IsWithin :
    (n : ℕ) (ts : List Token) → length ts < n → IsWithin n (parse_create_table n ts)
unfolding parse_create_table
parse_create_table-IsWithin n ts h = then_expect "CREATE" n n ts _ h (λ a t1 l1 h1.
    then_expect "TABLE" n n t1 _ h1 (λ b t2 l2 h2. then_expect "IDENT" n n t2 _ h2 (λ name t3 l3 h3.
      then_expect "(" n n t3 _ h3 (λ c t4 l4 h4.
        then_list (parse_column_def n) n n t4 _ (parse_column_def-IsProper n) h4 (λ cols t5 h5.
          then_expect ")" n n t5 _ h5
            (λ d t6 l6 h6. ended-IsWithin n (create_table name cols) t6 h6))))))

pub column_list-IsWithin : (n : ℕ) (ts : List Token) → length ts < n → IsWithin n (column_list n ts)
unfolding column_list
column_list-IsWithin n ts h = elim (Bool-cases (check "(" ts)) [
  | inl listed ↦ rw listed (
      then_list (expect "IDENT") n n (advance ts) _ (λ us k. expect-IsWithin "IDENT" us)
        (let le = advance_le ts in omega (arith, le, h))
        (λ cols rest small. then_expect ")" n n rest _ small (λ c more less fewer. fewer)))
  | inr missing ↦ rw missing h
]

pub either {ℓ} :
    {A : Type ℓ} (k : ℕ) (b : Bool) (p q : Parse A)
    → IsWithin k p
    → IsWithin k q
    → IsWithin k (if b then p else q)
either k true p q h g = h
either k false p q h g = g

-- An expression in parentheses, after the first one.
pub nested-IsWithin :
    (expr : List Token → Parse Expr) (n : ℕ) (ts : List Token)
    → IsProper n expr
    → length ts < n
    → IsWithin
        (suc (length ts))
        (and_then (expr ts) (λ e rest. and_then (expect ")" rest) (λ c more. parsed e more)))
nested-IsWithin expr n ts proper h =
    and_then-IsWithin (length ts) (suc (length ts)) (expr ts) _ (proper ts h) (λ e rest less.
      and_then-IsWithin (length rest) (suc (length ts)) (expect ")" rest) _
        (expect-IsWithin ")" rest) (λ c more fewer. omega (arith, less, fewer)))

-- A parser that had fuel enough has returned.
pub returned {ℓ} :
    {A : Type ℓ} (n : ℕ) (p : Parse A)
    → IsWithin (suc n) p
    → (p ≡ syntax_err) ⊎ ((x : A) × (rest : List Token) × (p ≡ parsed x rest) × (length rest ≤ n))
returned n (parsed x rest) h = inr (x, rest, refl, omega (arith, h))
returned n syntax_err h = inl refl
returned n out_of_fuel h = absurd h
