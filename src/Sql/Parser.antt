-- ===== src/Sql/Parser.antt =====
-- internal/sql/parser.go: the parser, from the tokens of internal/sql/token.go.
-- A parser takes the tokens that are left and gives back those after it. The loops and the nesting of
-- parentheses go by fuel; `parse_statement` gives one more than there are tokens. `parse_int` is
-- `strconv.ParseInt` for 64 bits, and `to_upper` is `strings.ToUpper`.
pub mod Bounds
pub mod Pieces
pub mod Exprs
pub mod Total
use doki.Prelude.{
  ℕ, zero, suc, ◌+◌, String, Bool, true, false, List, [], ◌∷◌, Option, none, some, if◌then◌else◌,
  str_eq, ◌||◌, length,
}
use doki.Config.{ℤ}
use doki.Sql.Ast.{
  Value, int, text, bool, null, Expr, binary, column_ref, literal, star, ColumnType, type_int,
  type_text, type_bool, ColumnDef, Assignment, Statement, create_table, insert, select, update,
  delete,
}

-- The types are the texts that the source names them by.
pub record Token : Type 0 where
  pub ttype : String
  pub literal : String
  pub pos : ℕ

pub data Parse {ℓ} (A : Type ℓ) : Type ℓ where
  parsed : A → List Token → Parse A
  syntax_err out_of_fuel : Parse A

unfoldable pub and_then {ℓ κ} :
    {A : Type ℓ} {B : Type κ} → Parse A → (A → List Token → Parse B) → Parse B
and_then (parsed x rest) next = next x rest
and_then syntax_err next = syntax_err
and_then out_of_fuel next = out_of_fuel

-- The type of the next token, that of the end of the text where there is none.
unfoldable pub peek : List Token → String
peek [] = "EOF"
peek (t ∷ ts) = t.ttype

unfoldable pub check : String → List Token → Bool
unfolding peek
check tt ts = str_eq (peek ts) tt

unfoldable pub advance : List Token → List Token
advance [] = []
advance (t ∷ ts) = ts

-- The literal of the expected token, of a type other than that of the end.
unfoldable pub expect : String → List Token → Parse String
expect tt [] = syntax_err
expect tt (t ∷ ts) = if str_eq t.ttype tt then parsed t.literal ts else syntax_err

-- The token is passed over where it is there.
unfoldable pub skip : String → List Token → List Token
unfolding check advance
skip tt ts = if check tt ts then advance ts else ts

unfoldable pub ended : Statement → List Token → Parse Statement
unfolding skip
ended s ts = parsed s (skip ";" ts)

unfoldable pub list_of {ℓ} : {A : Type ℓ} → (List Token → Parse A) → ℕ → List Token → Parse (List A)
unfolding and_then check advance
list_of item zero ts = out_of_fuel
list_of item (suc n) ts = and_then (item ts) (λ x rest.
    if check "," rest
    then and_then (list_of item n (advance rest)) (λ xs after. parsed (x ∷ xs) after)
    else parsed (x ∷ []) rest)

unfoldable pub is_comparison : String → Bool
is_comparison tt =
    str_eq tt "="
    || (str_eq tt "!=" || (str_eq tt "<" || (str_eq tt ">" || (str_eq tt "<=" || str_eq tt ">="))))

-- What follows the left side of a comparison.
unfoldable pub compare_rest : (List Token → Parse Expr) → Expr → List Token → Parse Expr
unfolding and_then is_comparison
compare_rest primary left [] = parsed left []
compare_rest primary left (t ∷ ts) =
    if is_comparison t.ttype
    then and_then (primary ts) (λ right rest. parsed (binary left t.literal right) rest)
    else parsed left (t ∷ ts)

unfoldable pub compare_with : (List Token → Parse Expr) → List Token → Parse Expr
unfolding and_then compare_rest
compare_with primary ts = and_then (primary ts) (λ left rest. compare_rest primary left rest)

unfoldable pub number_of : Option ℤ → List Token → Parse Expr
number_of none ts = syntax_err
number_of (some n) ts = parsed (literal (int n)) ts

unfoldable pub parse_column_type : List Token → Parse ColumnType
parse_column_type [] = syntax_err
parse_column_type (t ∷ ts) =
    if str_eq t.ttype "INT"
    then parsed type_int ts
    else if str_eq t.ttype "TEXT"
    then parsed type_text ts
    else if str_eq t.ttype "BOOL"
    then parsed type_bool ts
    else syntax_err

-- The constraints of a column, in any order.
unfoldable pub constraints : ℕ → String → ColumnType → Bool → Bool → List Token → Parse ColumnDef
unfolding and_then check advance expect
constraints zero name ct pk nn ts = out_of_fuel
constraints (suc n) name ct pk nn ts =
    if check "PRIMARY" ts
    then and_then (expect "KEY" (advance ts)) (λ l rest. constraints n name ct true nn rest)
    else if check "NOT" ts
    then and_then (expect "NULL" (advance ts)) (λ l rest. constraints n name ct pk true rest)
    else parsed (record { name = name; ctype = ct; primary_key = pk; not_null = nn }) ts

unfoldable pub parse_column_def : ℕ → List Token → Parse ColumnDef
unfolding and_then expect parse_column_type constraints
parse_column_def n ts = and_then (expect "IDENT" ts) (λ name rest.
    and_then (parse_column_type rest) (λ ct more. constraints n name ct false false more))

unfoldable pub parse_create_table : ℕ → List Token → Parse Statement
unfolding and_then expect list_of parse_column_def ended
parse_create_table n ts = and_then (expect "CREATE" ts) (λ a t1.
    and_then (expect "TABLE" t1) (λ b t2. and_then (expect "IDENT" t2) (λ name t3.
      and_then (expect "(" t3) (λ c t4.
        and_then (list_of (parse_column_def n) n t4)
          (λ cols t5. and_then (expect ")" t5) (λ d t6. ended (create_table name cols) t6))))))

-- The column list of an INSERT, which may be missing.
unfoldable pub column_list : ℕ → List Token → Parse (List String)
unfolding and_then check advance expect list_of
column_list n ts =
    if check "(" ts
    then and_then (list_of (expect "IDENT") n (advance ts))
        (λ cols rest. and_then (expect ")" rest) (λ c more. parsed cols more))
    else parsed [] ts

module _ (parse_int : String → Option ℤ) (to_upper : String → String) where
  -- (AND|OR comparison)*, from left to right.
  unfoldable pub expr_loop : (List Token → Parse Expr) → ℕ → Expr → List Token → Parse Expr
  unfolding and_then compare_with
  expr_loop primary zero left ts = out_of_fuel
  expr_loop primary (suc n) left [] = parsed left []
  expr_loop primary (suc n) left (t ∷ ts) =
      if str_eq t.ttype "AND" || str_eq t.ttype "OR"
      then and_then (compare_with primary ts)
          (λ right rest. expr_loop primary n (binary left (to_upper t.literal) right) rest)
      else parsed left (t ∷ ts)

  unfoldable pub expr_with : (List Token → Parse Expr) → ℕ → List Token → Parse Expr
  unfolding and_then compare_with expr_loop
  expr_with primary n ts =
      and_then (compare_with primary ts) (λ left rest. expr_loop primary n left rest)

  unfoldable pub primary_with : (List Token → Parse Expr) → List Token → Parse Expr
  unfolding and_then number_of expect
  primary_with expr [] = syntax_err
  primary_with expr (t ∷ ts) =
      if str_eq t.ttype "NUMBER"
      then number_of (parse_int t.literal) ts
      else if str_eq t.ttype "STRING"
      then parsed (literal (text t.literal)) ts
      else if str_eq t.ttype "TRUE"
      then parsed (literal (bool true)) ts
      else if str_eq t.ttype "FALSE"
      then parsed (literal (bool false)) ts
      else if str_eq t.ttype "NULL"
      then parsed (literal null) ts
      else if str_eq t.ttype "IDENT"
      then parsed (column_ref t.literal) ts
      else if str_eq t.ttype "("
      then and_then (expr ts) (λ e rest. and_then (expect ")" rest) (λ c more. parsed e more))
      else syntax_err

  unfoldable pub parse_primary : ℕ → List Token → Parse Expr
  unfolding primary_with expr_with
  parse_primary zero ts = out_of_fuel
  parse_primary (suc n) ts = primary_with (expr_with (parse_primary n) n) ts

  unfoldable pub parse_expr : ℕ → List Token → Parse Expr
  unfolding expr_with parse_primary
  parse_expr n ts = expr_with (parse_primary n) n ts

  unfoldable pub parse_insert : ℕ → List Token → Parse Statement
  unfolding and_then expect column_list list_of parse_expr ended
  parse_insert n ts = and_then (expect "INSERT" ts) (λ a t1. and_then (expect "INTO" t1) (λ b t2.
      and_then (expect "IDENT" t2) (λ name t3. and_then (column_list n t3) (λ cols t4.
        and_then (expect "VALUES" t4) (λ c t5. and_then (expect "(" t5) (λ d t6.
          and_then (list_of (parse_expr n) n t6) (λ values t7.
            and_then (expect ")" t7) (λ e t8. ended (insert name cols values) t8))))))))

  unfoldable pub selected : ℕ → List Token → Parse (List Expr)
  unfolding check advance list_of parse_primary
  selected n ts =
      if check "*" ts then parsed (star ∷ []) (advance ts) else list_of (parse_primary n) n ts

  unfoldable pub where_clause : ℕ → List Token → Parse (Option Expr)
  unfolding check advance and_then parse_expr
  where_clause n ts =
      if check "WHERE" ts
      then and_then (parse_expr n (advance ts)) (λ e rest. parsed (some e) rest)
      else parsed none ts

  unfoldable pub parse_select : ℕ → List Token → Parse Statement
  unfolding and_then expect selected where_clause ended
  parse_select n ts = and_then (expect "SELECT" ts) (λ a t1. and_then (selected n t1) (λ columns t2.
      and_then (expect "FROM" t2) (λ b t3. and_then (expect "IDENT" t3) (λ name t4.
        and_then (where_clause n t4) (λ condition t5. ended (select columns name condition) t5)))))

  unfoldable pub parse_assignment : ℕ → List Token → Parse Assignment
  unfolding and_then expect parse_expr
  parse_assignment n ts = and_then (expect "IDENT" ts) (λ column t1.
      and_then (expect "=" t1) (λ a t2.
        and_then (parse_expr n t2)
          (λ value t3. parsed (record { column = column; value = value }) t3)))

  unfoldable pub parse_update : ℕ → List Token → Parse Statement
  unfolding and_then expect list_of parse_assignment parse_expr ended
  parse_update n ts = and_then (expect "UPDATE" ts) (λ a t1.
      and_then (expect "IDENT" t1) (λ name t2. and_then (expect "SET" t2) (λ b t3.
        and_then (list_of (parse_assignment n) n t3) (λ assignments t4.
          and_then (expect "WHERE" t4) (λ c t5.
            and_then (parse_expr n t5)
              (λ condition t6. ended (update name assignments (some condition)) t6))))))

  unfoldable pub parse_delete : ℕ → List Token → Parse Statement
  unfolding and_then expect parse_expr ended
  parse_delete n ts = and_then (expect "DELETE" ts) (λ a t1. and_then (expect "FROM" t1) (λ b t2.
      and_then (expect "IDENT" t2) (λ name t3. and_then (expect "WHERE" t3) (λ c t4.
        and_then (parse_expr n t4) (λ condition t5. ended (delete name (some condition)) t5)))))

  unfoldable pub statement_with : ℕ → List Token → Parse Statement
  unfolding check parse_create_table parse_insert parse_select parse_update parse_delete
  statement_with n ts =
      if check "CREATE" ts
      then parse_create_table n ts
      else if check "INSERT" ts
      then parse_insert n ts
      else if check "SELECT" ts
      then parse_select n ts
      else if check "UPDATE" ts
      then parse_update n ts
      else if check "DELETE" ts
      then parse_delete n ts
      else syntax_err

  unfoldable pub parse_statement : List Token → Parse Statement
  unfolding statement_with
  parse_statement ts = statement_with (suc (length ts)) ts
