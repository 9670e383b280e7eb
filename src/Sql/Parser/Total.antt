-- ===== src/Sql/Parser/Total.antt =====
-- The fuel that internal/sql/parser.go is modelled with is always enough.
use doki.Prelude.{ℕ, suc, ◌<◌, ◌≤◌, ◌≡◌, arith, String, ◌⊎◌, List, Option, some, length}
use doki.Config.{ℤ}
use doki.Sql.Ast.{Statement, insert, select, update, delete}
use doki.Sql.Parser.{
  Token, parsed, syntax_err, check, advance, list_of, column_list, parse_primary, parse_expr,
  parse_insert, selected, where_clause, parse_select, parse_assignment, parse_update, parse_delete,
  statement_with, parse_statement,
}
use doki.Sql.Parser.Bounds.{
  IsWithin, IsProper, and_then-IsWithin, weaken, advance_le, then_expect, list_of-IsProper,
}
use doki.Sql.Parser.Pieces.{
  ended-IsWithin, then_list, then_part, parse_create_table-IsWithin, column_list-IsWithin, either,
  returned,
}
use doki.Sql.Parser.Exprs.{parse_primary-IsProper, parse_expr-IsProper}

module _ (parse_int : String → Option ℤ) (to_upper : String → String) where
  parse_insert-IsWithin :
      (n : ℕ) (ts : List Token) → length ts < n → IsWithin n (parse_insert parse_int to_upper n ts)
  unfolding parse_insert
  parse_insert-IsWithin n ts h =
      let expr = parse_expr parse_int to_upper n in
      then_expect "INSERT" n n ts _ h (λ a t1 l1 h1. then_expect "INTO" n n t1 _ h1 (λ b t2 l2 h2.
        then_expect "IDENT" n n t2 _ h2 (λ name t3 l3 h3.
          and_then-IsWithin n n (column_list n t3) _ (column_list-IsWithin n t3 h3) (λ cols t4 h4.
            then_expect "VALUES" n n t4 _ h4 (λ c t5 l5 h5.
              then_expect "(" n n t5 _ h5 (λ d t6 l6 h6.
                then_list expr n n t6 _ (parse_expr-IsProper parse_int to_upper n) h6
                  (λ values t7 h7.
                    then_expect ")" n n t7 _ h7
                      (λ e t8 l8 h8. ended-IsWithin n (insert name cols values) t8 h8))))))))

  selected-IsWithin :
      (n : ℕ) (ts : List Token) → length ts < n → IsWithin n (selected parse_int to_upper n ts)
  unfolding selected
  selected-IsWithin n ts h =
      let primary = parse_primary parse_int to_upper n in
      let le = advance_le ts in
      either n (check "*" ts) _ _ (omega (arith, le, h)) (
        weaken (length ts) n (list_of primary n ts) (omega (arith, h))
          (list_of-IsProper primary n n ts (parse_primary-IsProper parse_int to_upper n) h h))

  where_clause-IsWithin :
      (n : ℕ) (ts : List Token) → length ts < n → IsWithin n (where_clause parse_int to_upper n ts)
  unfolding where_clause
  where_clause-IsWithin n ts h =
      let le = advance_le ts in
      either n (check "WHERE" ts) _ _
        (then_part (parse_expr parse_int to_upper n) n n (advance ts) _
          (parse_expr-IsProper parse_int to_upper n) (omega (arith, le, h)) (λ e rest small. small))
        h

  parse_select-IsWithin :
      (n : ℕ) (ts : List Token) → length ts < n → IsWithin n (parse_select parse_int to_upper n ts)
  unfolding parse_select
  parse_select-IsWithin n ts h = then_expect "SELECT" n n ts _ h (λ a t1 l1 h1.
      and_then-IsWithin n n (selected parse_int to_upper n t1) _ (selected-IsWithin n t1 h1)
        (λ columns t2 h2. then_expect "FROM" n n t2 _ h2 (λ b t3 l3 h3.
          then_expect "IDENT" n n t3 _ h3 (λ name t4 l4 h4.
            and_then-IsWithin n n (where_clause parse_int to_upper n t4) _
              (where_clause-IsWithin n t4 h4)
              (λ condition t5 h5. ended-IsWithin n (select columns name condition) t5 h5)))))

  parse_assignment-IsProper : (n : ℕ) → IsProper n (parse_assignment parse_int to_upper n)
  unfolding parse_assignment
  parse_assignment-IsProper n ts h = then_expect "IDENT" n (length ts) ts _ h (λ column t1 l1 h1.
      then_expect "=" n (length ts) t1 _ h1 (λ a t2 l2 h2.
        and_then-IsWithin (length t2) (length ts) (parse_expr parse_int to_upper n t2) _
          (parse_expr-IsProper parse_int to_upper n t2 h2)
          (λ value t3 l3. omega (arith, l1, l2, l3))))

  parse_update-IsWithin :
      (n : ℕ) (ts : List Token) → length ts < n → IsWithin n (parse_update parse_int to_upper n ts)
  unfolding parse_update
  parse_update-IsWithin n ts h =
      let assignment = parse_assignment parse_int to_upper n in
      then_expect "UPDATE" n n ts _ h (λ a t1 l1 h1.
        then_expect "IDENT" n n t1 _ h1 (λ name t2 l2 h2.
          then_expect "SET" n n t2 _ h2 (λ b t3 l3 h3.
            then_list assignment n n t3 _ (parse_assignment-IsProper n) h3 (λ assignments t4 h4.
              then_expect "WHERE" n n t4 _ h4 (λ c t5 l5 h5.
                then_part (parse_expr parse_int to_upper n) n n t5 _
                  (parse_expr-IsProper parse_int to_upper n) h5
                  (λ condition t6 h6.
                    ended-IsWithin n (update name assignments (some condition)) t6 h6))))))

  parse_delete-IsWithin :
      (n : ℕ) (ts : List Token) → length ts < n → IsWithin n (parse_delete parse_int to_upper n ts)
  unfolding parse_delete
  parse_delete-IsWithin n ts h = then_expect "DELETE" n n ts _ h (λ a t1 l1 h1.
      then_expect "FROM" n n t1 _ h1 (λ b t2 l2 h2.
        then_expect "IDENT" n n t2 _ h2 (λ name t3 l3 h3.
          then_expect "WHERE" n n t3 _ h3 (λ c t4 l4 h4.
            then_part (parse_expr parse_int to_upper n) n n t4 _
              (parse_expr-IsProper parse_int to_upper n) h4
              (λ condition t5 h5. ended-IsWithin n (delete name (some condition)) t5 h5)))))

  statement_with-IsWithin :
      (n : ℕ) (ts : List Token)
      → length ts < n
      → IsWithin n (statement_with parse_int to_upper n ts)
  unfolding statement_with
  statement_with-IsWithin n ts h =
      either n (check "CREATE" ts) _ _ (parse_create_table-IsWithin n ts h) (
        either n (check "INSERT" ts) _ _ (parse_insert-IsWithin n ts h) (
          either n (check "SELECT" ts) _ _ (parse_select-IsWithin n ts h) (
            either n (check "UPDATE" ts) _ _ (parse_update-IsWithin n ts h)
              (either n (check "DELETE" ts) _ _ (parse_delete-IsWithin n ts h) tt))))

  -- The parser has fuel enough for every list of tokens: it returns a syntax error, or a statement
  -- and no more tokens than it was given.
  pub parse_statement_returns :
      (ts : List Token)
      → (parse_statement parse_int to_upper ts ≡ syntax_err)
        ⊎ ((s : Statement) × (rest : List Token) × (parse_statement parse_int to_upper ts
              ≡ parsed s rest)
            × (length rest ≤ length ts))
  unfolding parse_statement
  parse_statement_returns ts =
      returned (length ts) (statement_with parse_int to_upper (suc (length ts)) ts)
        (statement_with-IsWithin (suc (length ts)) ts (omega arith))
