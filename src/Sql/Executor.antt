-- ===== src/Sql/Executor.antt =====
-- internal/sql/executor.go: a plan run against a store and the catalog.
-- The store is the interface `KV`: its calls take and give back its state. `EncodeRow` and
-- `DecodeRow` of internal/sql/catalog.go are the JSON encoder and decoder, parameters here.
use doki.Prelude.{ℕ, String, Bool, List, [], ◌∷◌, Option, none, some, if◌then◌else◌, map}
use doki.Storage.{lookup, with_pair}
use doki.Sql.Ast.{Value, null, ColumnDef}
use doki.Sql.Catalog
use doki.Sql.Catalog.{Catalog, TableDef}
use doki.Sql.Analyzer.{ResolvedAssignment}
use doki.Sql.Planner.{
  Row, PhysicalPlan, create_table_plan, insert_plan, point_get, table_scan, point_update,
  point_delete, literal_of,
}

pub data Got : Type 0 where
  got : String → Got
  not_found get_failed : Got

pub record KvOps (K : Type 0) : Type 0 where
  pub get : K → String → Got
  pub put : K → String → String → K × Bool
  pub delete : K → String → K × Bool
  pub scan : K → String → Option (List (String × String))

pub record Json : Type 0 where
  pub encode : Row → Option String
  pub decode : String → Option Row

pub record ResultSet : Type 0 where
  pub columns : List String
  pub rows : List Row
  pub rows_affected : ℕ

pub data Result : Type 0 where
  result : ResultSet → Result
  table_exists kv_failed bad_row not_literal : Result

unfoldable pub affected : ℕ → Result
affected n = result (record { columns = []; rows = []; rows_affected = n })

unfoldable pub resolve_columns : TableDef → Option (List ColumnDef) → List ColumnDef
resolve_columns table none = table.columns
resolve_columns table (some cols) = cols

unfoldable pub column_names : List ColumnDef → List String
column_names cols = map (λ (c : ColumnDef). c.name) cols

-- `row[name]`, nil for a missing column.
unfoldable pub value_at : Row → String → Value
value_at row name = elim (lookup row name) [ none ↦ null | some v ↦ v ]

unfoldable pub project_onto : Row → Row → List ColumnDef → Row
unfolding value_at
project_onto found row [] = found
project_onto found row (c ∷ cs) = project_onto (with_pair found c.name (value_at row c.name)) row cs

unfoldable pub project_row : Row → List ColumnDef → Row
unfolding project_onto
project_row row cols = project_onto [] row cols

-- `none` is an assignment of what is no literal.
unfoldable pub assign_onto : Row → List ResolvedAssignment → Option Row
unfolding literal_of
assign_onto row [] = some row
assign_onto row (a ∷ rest) = elim (literal_of a.value.expr) [
  | none ↦ none
  | some v ↦ assign_onto (with_pair row a.column.name v) rest
]

unfoldable pub done : ℕ → Bool → Result
unfolding affected
done n fine = if fine then affected n else kv_failed

module _ {K : Type 0} (ops : KvOps K) (json : Json) where
  unfoldable pub put_row : K → String → Option Row → K × Result
  unfolding done
  put_row kv key none = (kv, not_literal)
  put_row kv key (some row) = elim (json.encode row) [
    | none ↦ (kv, bad_row)
    | some data_text ↦ let (next, fine) = ops.put kv key data_text in (next, done 1 fine)
  ]

  unfoldable pub execute_insert : K → String → Row → K × Result
  unfolding put_row
  execute_insert kv key row = put_row kv key (some row)

  unfoldable pub one_row : List ColumnDef → Option Row → Result
  unfolding column_names project_row
  one_row cols none = bad_row
  one_row cols (some row) =
      result (record {
        columns = column_names cols;
        rows = project_row row cols ∷ [];
        rows_affected = 0;
      })

  unfoldable pub read_row : List ColumnDef → Got → Result
  unfolding one_row
  read_row cols (got data_text) = one_row cols (json.decode data_text)
  read_row cols not_found =
      result (record { columns = column_names cols; rows = []; rows_affected = 0 })
  read_row cols get_failed = kv_failed

  unfoldable pub execute_point_get : K → String → TableDef → Option (List ColumnDef) → Result
  unfolding read_row resolve_columns
  execute_point_get kv key table columns = read_row (resolve_columns table columns) (ops.get kv key)

  -- The rows of the scanned entries; `none` is one that cannot be decoded.
  unfoldable pub scanned_rows : List ColumnDef → List (String × String) → Option (List Row)
  unfolding project_row
  scanned_rows cols [] = some []
  scanned_rows cols ((key, data_text) ∷ rest) = elim (json.decode data_text) [
    | none ↦ none
    | some row ↦ elim (scanned_rows cols rest) [
      | none ↦ none
      | some rows ↦ some (project_row row cols ∷ rows)
    ]
  ]

  unfoldable pub scanned : List ColumnDef → Option (List (String × String)) → Result
  unfolding scanned_rows column_names
  scanned cols none = kv_failed
  scanned cols (some entries) = elim (scanned_rows cols entries) [
    | none ↦ bad_row
    | some rows ↦ result (record { columns = column_names cols; rows = rows; rows_affected = 0 })
  ]

  unfoldable pub execute_table_scan : K → String → TableDef → Option (List ColumnDef) → Result
  unfolding scanned resolve_columns
  execute_table_scan kv prefix table columns =
      scanned (resolve_columns table columns) (ops.scan kv prefix)

  unfoldable pub update_row : K → String → List ResolvedAssignment → Option Row → K × Result
  unfolding put_row assign_onto
  update_row kv key assignments none = (kv, bad_row)
  update_row kv key assignments (some row) = put_row kv key (assign_onto row assignments)

  unfoldable pub update_got : K → String → List ResolvedAssignment → Got → K × Result
  unfolding update_row affected
  update_got kv key assignments (got data_text) =
      update_row kv key assignments (json.decode data_text)
  update_got kv key assignments not_found = (kv, affected 0)
  update_got kv key assignments get_failed = (kv, kv_failed)

  unfoldable pub execute_point_update : K → String → List ResolvedAssignment → K × Result
  unfolding update_got
  execute_point_update kv key assignments = update_got kv key assignments (ops.get kv key)

  unfoldable pub execute_point_delete : K → String → K × Result
  unfolding done
  execute_point_delete kv key = let (next, fine) = ops.delete kv key in (next, done 1 fine)

  unfoldable pub execute : PhysicalPlan → K → Catalog → (K × Catalog) × Result
  unfolding execute_insert execute_point_get execute_table_scan execute_point_update
      execute_point_delete affected
  execute (create_table_plan def) kv cat =
      let (next, fine) = Catalog.create_table cat def in
      ((kv, next), if fine then affected 0 else table_exists)
  execute (insert_plan key row table) kv cat =
      let (next, r) = execute_insert kv key row in ((next, cat), r)
  execute (point_get key table columns) kv cat = ((kv, cat), execute_point_get kv key table columns)
  execute (table_scan prefix table columns) kv cat =
      ((kv, cat), execute_table_scan kv prefix table columns)
  execute (point_update key table assignments) kv cat =
      let (next, r) = execute_point_update kv key assignments in ((next, cat), r)
  execute (point_delete key table) kv cat =
      let (next, r) = execute_point_delete kv key in ((next, cat), r)
