-- ===== src/Sql/Parser/Exprs.antt =====
-- What the expressions of internal/sql/parser.go consume.
use doki.Prelude.{
  ℕ, zero, suc, ◌<◌, arith, String, Bool-cases, inl, inr, List, [], ◌∷◌, Option, none, some, length,
  str_eq, ◌||◌,
}
use doki.Config.{ℤ}
use doki.Sql.Ast.{Expr, binary}
use doki.Sql.Parser.{
  Token, Parse, compare_with, number_of, expr_loop, expr_with, primary_with, parse_primary,
  parse_expr,
}
use doki.Sql.Parser.Bounds.{IsWithin, IsProper, and_then-IsWithin, weaken, compare_with-IsWithin}
use doki.Sql.Parser.Pieces.{either, nested-IsWithin}

module _ (parse_int : String → Option ℤ) (to_upper : String → String) where
  expr_loop-IsWithin :
      (primary : List Token → Parse Expr) (n fuel : ℕ) (left : Expr) (ts : List Token)
      → IsProper n primary
      → length ts < n
      → length ts < fuel
      → IsWithin (suc (length ts)) (expr_loop parse_int to_upper primary fuel left ts)
  unfolding expr_loop
  expr_loop-IsWithin primary n zero left ts proper h k = absurd (omega (arith, k))
  expr_loop-IsWithin primary n (suc fuel) left [] proper h k = omega arith
  expr_loop-IsWithin primary n (suc fuel) left (t ∷ ts) proper h k =
      elim (Bool-cases (str_eq t.ttype "AND" || str_eq t.ttype "OR")) [
        | inl joined ↦ rw joined (
            and_then-IsWithin (length ts) (suc (suc (length ts))) (compare_with primary ts) _
              (compare_with-IsWithin primary n ts proper (omega (arith, h)))
              (λ right rest less.
                let more =
                  expr_loop parse_int to_upper primary fuel (binary left (to_upper t.literal) right)
                    rest in
                weaken (suc (length rest)) (suc (suc (length ts))) more (omega (arith, less)) (
                  expr_loop-IsWithin primary n fuel (binary left (to_upper t.literal) right) rest
                    proper (omega (arith, h, less)) (omega (arith, k, less)))))
        | inr last ↦ rw last (omega arith)
      ]

  expr_with-IsProper :
      (primary : List Token → Parse Expr) (n : ℕ)
      → IsProper n primary
      → IsProper n (expr_with parse_int to_upper primary n)
  unfolding expr_with
  expr_with-IsProper primary n proper ts h =
      and_then-IsWithin (length ts) (length ts) (compare_with primary ts) _
        (compare_with-IsWithin primary n ts proper h)
        (λ left rest less.
          weaken (suc (length rest)) (length ts) (expr_loop parse_int to_upper primary n left rest)
            (omega (arith, less))
            (expr_loop-IsWithin primary n n left rest proper (omega (arith, h, less))
              (omega (arith, h, less))))

  number_of-IsWithin :
      (o : Option ℤ) (ts : List Token) → IsWithin (suc (length ts)) (number_of o ts)
  unfolding number_of
  number_of-IsWithin none ts = tt
  number_of-IsWithin (some n) ts = omega arith

  primary_with-IsProper :
      (expr : List Token → Parse Expr) (n : ℕ)
      → IsProper n expr
      → IsProper (suc n) (primary_with parse_int to_upper expr)
  unfolding primary_with
  primary_with-IsProper expr n proper [] h = tt
  primary_with-IsProper expr n proper (t ∷ ts) h =
      let k = suc (length ts) in
      either k (str_eq t.ttype "NUMBER") _ _ (number_of-IsWithin (parse_int t.literal) ts) (
        either k (str_eq t.ttype "STRING") _ _ (omega arith) (
          either k (str_eq t.ttype "TRUE") _ _ (omega arith) (
            either k (str_eq t.ttype "FALSE") _ _ (omega arith) (
              either k (str_eq t.ttype "NULL") _ _ (omega arith) (
                either k (str_eq t.ttype "IDENT") _ _ (omega arith) (
                  either k (str_eq t.ttype "(") _ _
                    (nested-IsWithin expr n ts proper (omega (arith, h))) tt))))))

  pub parse_primary-IsProper : (n : ℕ) → IsProper n (parse_primary parse_int to_upper n)
  unfolding parse_primary
  parse_primary-IsProper zero ts h = absurd (omega (arith, h))
  parse_primary-IsProper (suc n) ts h =
      let primary = parse_primary parse_int to_upper n in
      primary_with-IsProper (expr_with parse_int to_upper primary n) n
        (expr_with-IsProper primary n (parse_primary-IsProper n)) ts h

  pub parse_expr-IsProper : (n : ℕ) → IsProper n (parse_expr parse_int to_upper n)
  unfolding parse_expr
  parse_expr-IsProper n =
      expr_with-IsProper (parse_primary parse_int to_upper n) n (parse_primary-IsProper n)
