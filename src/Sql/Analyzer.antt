-- ===== src/Sql/Analyzer.antt =====
-- internal/sql/analyzer.go: names and types of a statement, checked against the catalog.
use doki.Prelude.{
  String, Bool, true, false, List, [], ◌∷◌, Option, none, some, ◌==◌, if◌then◌else◌, str_eq, length,
}
use doki.ShardMap.{is_among}
use doki.Sql.Ast.{
  Value, int, text, bool, null, float, Expr, binary, column_ref, literal, star, ColumnType,
  type_int, type_text, type_bool, ColumnDef, Assignment, Statement, create_table, insert, select,
  update, delete,
}
use doki.Sql.Catalog
use doki.Sql.Catalog.{Catalog, TableDef, find_column}

pub record TypedExpr : Type 0 where
  pub expr : Expr
  pub ctype : ColumnType

pub record ResolvedWhere : Type 0 where
  pub pk_column : ColumnDef
  pub op : String
  pub value : TypedExpr

pub record ResolvedAssignment : Type 0 where
  pub column : ColumnDef
  pub value : TypedExpr

-- No columns to project is all of them; no condition is a full scan.
pub data Resolved : Type 0 where
  resolved_create : TableDef → Resolved
  resolved_insert : TableDef → List ColumnDef → List TypedExpr → Resolved
  resolved_select : TableDef → Option (List ColumnDef) → Option ResolvedWhere → Resolved
  resolved_update : TableDef → List ResolvedAssignment → ResolvedWhere → Resolved
  resolved_delete : TableDef → ResolvedWhere → Resolved

pub data Err : Type 0 where
  duplicate_column no_primary_key multiple_primary_keys table_not_found column_not_found : Err
  value_count type_mismatch unsupported_expression unsupported_literal : Err
  bad_where where_required mixed_star column_expected : Err

pub data Answer {ℓ} (A : Type ℓ) : Type ℓ where
  ok : A → Answer A
  failed : Err → Answer A

-- The next step, where this one has not failed.
unfoldable pub and_then {ℓ κ} : {A : Type ℓ} {B : Type κ} → Answer A → (A → Answer B) → Answer B
and_then (ok x) next = next x
and_then (failed e) next = failed e

unfoldable pub or_err {ℓ} : {A : Type ℓ} → Option A → Err → Answer A
or_err none e = failed e
or_err (some x) e = ok x

unfoldable pub check_that : Bool → Err → Answer Bool
check_that true e = ok true
check_that false e = failed e

-- Whether a name stands twice among the columns.
unfoldable pub has_duplicate : List String → List ColumnDef → Bool
unfolding is_among
has_duplicate seen [] = false
has_duplicate seen (c ∷ cs) =
    let rest = has_duplicate (c.name ∷ seen) cs in if is_among c.name seen then true else rest

unfoldable pub primary_keys : List ColumnDef → List String
primary_keys [] = []
primary_keys (c ∷ cs) = let rest = primary_keys cs in if c.primary_key then c.name ∷ rest else rest

unfoldable pub table_of : String → List ColumnDef → List String → Answer Resolved
table_of name columns [] = failed no_primary_key
table_of name columns (pk ∷ []) =
    ok
      (resolved_create (record { name = name; columns = columns; primary_key = pk; shard_id = "" }))
table_of name columns (pk ∷ other ∷ more) = failed multiple_primary_keys

unfoldable pub analyze_create_table : String → List ColumnDef → Answer Resolved
unfolding has_duplicate primary_keys table_of
analyze_create_table name columns =
    if has_duplicate [] columns
    then failed duplicate_column
    else table_of name columns (primary_keys columns)

-- NULL counts as an INT. No literal of a statement is a `float64`.
unfoldable pub resolve_literal : Value → Answer TypedExpr
resolve_literal (int n) = ok (record { expr = literal (int n); ctype = type_int })
resolve_literal (text s) = ok (record { expr = literal (text s); ctype = type_text })
resolve_literal (bool b) = ok (record { expr = literal (bool b); ctype = type_bool })
resolve_literal null = ok (record { expr = literal null; ctype = type_int })
resolve_literal (float bits) = failed unsupported_literal

unfoldable pub resolve_expr : Expr → TableDef → Answer TypedExpr
unfolding resolve_literal and_then or_err
resolve_expr (literal v) table = resolve_literal v
resolve_expr (column_ref name) table =
    and_then (or_err (find_column table name) column_not_found)
      (λ col. ok (record { expr = column_ref name; ctype = col.ctype }))
resolve_expr (binary l op r) table = failed unsupported_expression
resolve_expr star table = failed unsupported_expression

unfoldable pub same_type : ColumnType → ColumnType → Bool
same_type type_int type_int = true
same_type type_text type_text = true
same_type type_bool type_bool = true
same_type type_int type_text = false
same_type type_int type_bool = false
same_type type_text type_int = false
same_type type_text type_bool = false
same_type type_bool type_int = false
same_type type_bool type_text = false

-- An expression whose type is that of the column.
unfoldable pub resolve_for : TableDef → ColumnDef → Expr → Answer TypedExpr
unfolding and_then resolve_expr check_that same_type
resolve_for table col e =
    and_then (resolve_expr e table)
      (λ tv. and_then (check_that (same_type tv.ctype col.ctype) type_mismatch) (λ fits. ok tv))

unfoldable pub columns_named : TableDef → List String → Answer (List ColumnDef)
unfolding and_then or_err
columns_named table [] = ok []
columns_named table (n ∷ ns) =
    and_then (or_err (find_column table n) column_not_found)
      (λ col. and_then (columns_named table ns) (λ cols. ok (col ∷ cols)))

-- The values of an INSERT, which are as many as the columns.
unfoldable pub resolve_values : TableDef → List ColumnDef → List Expr → Answer (List TypedExpr)
unfolding and_then resolve_for
resolve_values table [] [] = ok []
resolve_values table (c ∷ cs) (v ∷ vs) =
    and_then (resolve_for table c v)
      (λ tv. and_then (resolve_values table cs vs) (λ tvs. ok (tv ∷ tvs)))
resolve_values table [] (v ∷ vs) = failed value_count
resolve_values table (c ∷ cs) [] = failed value_count

unfoldable pub target_columns : TableDef → List String → Answer (List ColumnDef)
unfolding columns_named
target_columns table [] = ok table.columns
target_columns table (n ∷ ns) = columns_named table (n ∷ ns)

unfoldable pub analyze_insert : TableDef → List String → List Expr → Answer Resolved
unfolding and_then target_columns check_that resolve_values
analyze_insert table columns values = and_then (target_columns table columns) (λ cols.
    and_then (check_that (length values == length cols) value_count) (λ counted.
      and_then (resolve_values table cols values) (λ tvs. ok (resolved_insert table cols tvs))))

unfoldable pub resolve_column_expr : TableDef → Expr → Answer ColumnDef
unfolding or_err
resolve_column_expr table (column_ref name) = or_err (find_column table name) column_not_found
resolve_column_expr table (literal v) = failed column_expected
resolve_column_expr table (binary l op r) = failed column_expected
resolve_column_expr table star = failed column_expected

-- One of several columns: `*` is refused among them.
unfoldable pub resolve_one_of : TableDef → Expr → Answer ColumnDef
unfolding resolve_column_expr
resolve_one_of table star = failed mixed_star
resolve_one_of table (column_ref name) = resolve_column_expr table (column_ref name)
resolve_one_of table (literal v) = resolve_column_expr table (literal v)
resolve_one_of table (binary l op r) = resolve_column_expr table (binary l op r)

unfoldable pub resolve_columns : TableDef → List Expr → Answer (List ColumnDef)
unfolding and_then resolve_one_of
resolve_columns table [] = ok []
resolve_columns table (e ∷ es) =
    and_then (resolve_one_of table e)
      (λ col. and_then (resolve_columns table es) (λ cols. ok (col ∷ cols)))

unfoldable pub resolve_projection : TableDef → List Expr → Answer (Option (List ColumnDef))
unfolding and_then resolve_column_expr resolve_columns
resolve_projection table [] = ok none
resolve_projection table (star ∷ []) = ok none
resolve_projection table (e ∷ []) =
    and_then (resolve_column_expr table e) (λ col. ok (some (col ∷ [])))
resolve_projection table (e ∷ f ∷ es) =
    and_then (resolve_columns table (e ∷ f ∷ es)) (λ cols. ok (some cols))

-- Only `pk_col = value` is supported.
unfoldable pub resolve_where : TableDef → Expr → Answer ResolvedWhere
unfolding and_then check_that or_err resolve_for
resolve_where table (binary (column_ref name) op right) =
    and_then (check_that (str_eq name table.primary_key) bad_where) (λ keyed.
      and_then (check_that (str_eq op "=") bad_where) (λ equal.
        and_then (or_err (find_column table table.primary_key) column_not_found) (λ pk.
          and_then (resolve_for table pk right)
            (λ tv. ok (record { pk_column = pk; op = op; value = tv })))))
resolve_where table _ = failed bad_where

unfoldable pub resolve_condition : TableDef → Option Expr → Answer (Option ResolvedWhere)
unfolding and_then resolve_where
resolve_condition table none = ok none
resolve_condition table (some e) = and_then (resolve_where table e) (λ w. ok (some w))

-- UPDATE and DELETE have to have a condition.
unfoldable pub required_where : TableDef → Option Expr → Answer ResolvedWhere
unfolding resolve_where
required_where table none = failed where_required
required_where table (some e) = resolve_where table e

unfoldable pub analyze_select : TableDef → List Expr → Option Expr → Answer Resolved
unfolding and_then resolve_projection resolve_condition
analyze_select table columns condition =
    and_then (resolve_projection table columns) (λ cols.
      and_then (resolve_condition table condition) (λ w. ok (resolved_select table cols w)))

unfoldable pub resolve_assignments : TableDef → List Assignment → Answer (List ResolvedAssignment)
unfolding and_then or_err resolve_for
resolve_assignments table [] = ok []
resolve_assignments table (a ∷ rest) =
    and_then (or_err (find_column table a.column) column_not_found) (λ col.
      and_then (resolve_for table col a.value) (λ tv.
        and_then (resolve_assignments table rest)
          (λ more. ok (record { column = col; value = tv } ∷ more))))

unfoldable pub analyze_update : TableDef → List Assignment → Option Expr → Answer Resolved
unfolding and_then resolve_assignments required_where
analyze_update table assignments condition =
    and_then (resolve_assignments table assignments) (λ resolved.
      and_then (required_where table condition) (λ w. ok (resolved_update table resolved w)))

unfoldable pub analyze_delete : TableDef → Option Expr → Answer Resolved
unfolding and_then required_where
analyze_delete table condition =
    and_then (required_where table condition) (λ w. ok (resolved_delete table w))

unfoldable pub in_table : Catalog → String → (TableDef → Answer Resolved) → Answer Resolved
unfolding and_then or_err Catalog.get_table
in_table cat name next = and_then (or_err (Catalog.get_table cat name) table_not_found) next

unfoldable pub analyze : Statement → Catalog → Answer Resolved
unfolding in_table analyze_create_table analyze_insert analyze_select analyze_update analyze_delete
analyze (create_table name columns) cat = analyze_create_table name columns
analyze (insert name columns values) cat =
    in_table cat name (λ table. analyze_insert table columns values)
analyze (select columns name condition) cat =
    in_table cat name (λ table. analyze_select table columns condition)
analyze (update name assignments condition) cat =
    in_table cat name (λ table. analyze_update table assignments condition)
analyze (delete name condition) cat = in_table cat name (λ table. analyze_delete table condition)
