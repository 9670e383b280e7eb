-- ===== src/Sql/Planner.antt =====
-- internal/sql/planner.go: the access to the store that a resolved statement needs.
-- `format_int` is `strconv.FormatInt` with base 10.
use doki.Prelude.{String, true, false, List, [], ◌∷◌, Option, none, some, if◌then◌else◌, str_eq}
use Prim.Native.String.{◌++◌ as ◌^^◌}
use doki.Config.{ℤ}
use doki.Storage.{Pairs, with_pair}
use doki.Sql.Ast.{
  Value, int, text, bool, null, float, Expr, binary, column_ref, literal, star, ColumnDef,
}
use doki.Sql.Catalog.{TableDef, row_key}
use doki.Sql.Analyzer.{
  TypedExpr, ResolvedWhere, ResolvedAssignment, Resolved, resolved_create, resolved_insert,
  resolved_select, resolved_update, resolved_delete,
}

abbrev pub Row : Type 0
Row = Pairs Value

pub data PhysicalPlan : Type 0 where
  create_table_plan : TableDef → PhysicalPlan
  insert_plan : String → Row → TableDef → PhysicalPlan
  point_get table_scan : String → TableDef → Option (List ColumnDef) → PhysicalPlan
  point_update : String → TableDef → List ResolvedAssignment → PhysicalPlan
  point_delete : String → TableDef → PhysicalPlan

pub data Planned : Type 0 where
  planned : PhysicalPlan → Planned
  not_literal no_primary_key only_equal : Planned

unfoldable pub literal_of : Expr → Option Value
literal_of (literal v) = some v
literal_of (column_ref name) = none
literal_of (binary l op r) = none
literal_of star = none

-- The values of the pairs with a column each, in order; `none` is a value that is no literal.
unfoldable pub row_onto : Row → List ColumnDef → List TypedExpr → Option Row
unfolding literal_of
row_onto row [] values = some row
row_onto row (c ∷ cs) [] = some row
row_onto row (c ∷ cs) (tv ∷ tvs) = elim (literal_of tv.expr) [
  | none ↦ none
  | some v ↦ row_onto (with_pair row c.name v) cs tvs
]

unfoldable pub find_pk_value : TableDef → List ColumnDef → List TypedExpr → Option TypedExpr
find_pk_value table [] values = none
find_pk_value table (c ∷ cs) [] = none
find_pk_value table (c ∷ cs) (tv ∷ tvs) =
    let rest = find_pk_value table cs tvs in
    if str_eq c.name table.primary_key then some tv else rest

unfoldable pub only_if_equal : String → Planned → Planned
only_if_equal op p = if str_eq op "=" then p else only_equal

module _ (format_int : ℤ → String) where
  unfoldable pub value_to_string : Value → Option String
  value_to_string (int n) = some (format_int n)
  value_to_string (text s) = some s
  value_to_string (bool true) = some "true"
  value_to_string (bool false) = some "false"
  value_to_string null = some "null"
  value_to_string (float bits) = none

  unfoldable pub to_string_or_none : Option Value → Option String
  unfolding value_to_string
  to_string_or_none none = none
  to_string_or_none (some v) = value_to_string v

  unfoldable pub eval_literal_to_string : TypedExpr → Option String
  unfolding to_string_or_none literal_of
  eval_literal_to_string tv = to_string_or_none (literal_of tv.expr)

  -- What is planned for the key of a row.
  unfoldable pub at_key : TableDef → TypedExpr → (String → Planned) → Planned
  unfolding eval_literal_to_string row_key
  at_key table value next = elim (eval_literal_to_string value) [
    | none ↦ not_literal
    | some pk ↦ next (row_key table.name pk)
  ]

  unfoldable pub with_row : String → TableDef → Option Row → Planned
  with_row key table none = not_literal
  with_row key table (some row) = planned (insert_plan key row table)

  unfoldable pub plan_insert : TableDef → List ColumnDef → List TypedExpr → Planned
  unfolding find_pk_value at_key row_onto with_row
  plan_insert table cols values = elim (find_pk_value table cols values) [
    | none ↦ no_primary_key
    | some pk ↦ at_key table pk (λ key. with_row key table (row_onto [] cols values))
  ]

  unfoldable pub scan_plan : TableDef → Option (List ColumnDef) → Planned
  scan_plan table columns = planned (table_scan (table.name ^^ "/") table columns)

  unfoldable pub plan_select : TableDef → Option (List ColumnDef) → Option ResolvedWhere → Planned
  unfolding at_key scan_plan
  plan_select table columns none = scan_plan table columns
  plan_select table columns (some w) =
      if str_eq w.op "="
      then at_key table w.value (λ key. planned (point_get key table columns))
      else scan_plan table columns

  unfoldable pub plan_update : TableDef → List ResolvedAssignment → ResolvedWhere → Planned
  unfolding only_if_equal at_key
  plan_update table assignments w =
      only_if_equal w.op
        (at_key table w.value (λ key. planned (point_update key table assignments)))

  unfoldable pub plan_delete : TableDef → ResolvedWhere → Planned
  unfolding only_if_equal at_key
  plan_delete table w =
      only_if_equal w.op (at_key table w.value (λ key. planned (point_delete key table)))

  unfoldable pub plan : Resolved → Planned
  unfolding plan_insert plan_select plan_update plan_delete
  plan (resolved_create def) = planned (create_table_plan def)
  plan (resolved_insert table cols values) = plan_insert table cols values
  plan (resolved_select table columns condition) = plan_select table columns condition
  plan (resolved_update table assignments w) = plan_update table assignments w
  plan (resolved_delete table w) = plan_delete table w
