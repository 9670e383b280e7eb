-- ===== src/Sql/RoundTrip.antt =====
-- An INSERT and a SELECT by the same primary key, through internal/sql/analyzer.go, planner.go and
-- executor.go.
use doki.Prelude.{String, true, ◌≡◌, ◌∙◌, sym, ap, List, [], ◌∷◌, none, some}
use doki.Config.{ℤ}
use doki.Sql.Ast.{Expr, binary, column_ref, star, ColumnDef, Statement, insert}
use doki.Sql.Catalog.{Catalog, TableDef, find_column, get_table}
use doki.Sql.Analyzer.{
  TypedExpr, ResolvedWhere, Resolved, resolved_insert, resolved_select, ok, resolve_for,
  resolve_values, target_columns, analyze_insert, analyze_select, analyze,
}
use doki.Sql.Planner.{
  Row, PhysicalPlan, planned, insert_plan, point_get, find_pk_value, plan, plan_insert,
}
use doki.Sql.Executor.{KvOps, got, Json, ResultSet, result, execute}
use doki.Sql.Resolved.{pk_resolved, target_columns_first, insert_resolved, resolve_for_same}
use doki.Sql.Steps.{
  select_by, row_set, where_resolved, select_resolved, in_table_ok, in_table_there, insert_planned,
  insert_executed, insert_state, get_executed, select_planned,
}

-- What the store and the JSON encoder are documented to do: a value that was put is what `Get`
-- finds, and a row that was encoded is decoded to the row that `read_back` makes of it (numbers
-- become floating-point numbers).
pub record Keeps {K : Type 0} (ops : KvOps K) (json : Json) (read_back : Row → Row) : Type 0 where
  pub gets :
      (kv next : K) (key value : String)
      → ops.put kv key value ≡ (next, true)
      → ops.get next key ≡ got value
  pub decodes :
      (row : Row) (data_text : String)
      → json.encode row ≡ some data_text
      → json.decode data_text ≡ some (read_back row)

-- A statement that is analyzed, planned and executed without an error, and what it leaves and
-- answers.
pub record Runs {K : Type 0} (ops : KvOps K) (json : Json) (format_int : ℤ → String)
    (statement : Statement) (kv : K) (cat : Catalog) (next : K) (r : ResultSet) : Type 0 where
  pub resolved : Resolved
  pub physical : PhysicalPlan
  pub analyzed : analyze statement cat ≡ ok resolved
  pub plans : plan format_int resolved ≡ planned physical
  pub executed : execute ops json physical kv cat ≡ ((next, cat), result r)

insert_parts :
    (name : String) (ns : List String) (vs : List Expr) (cat : Catalog) (t : TableDef)
    (cs : List ColumnDef) (tvs : List TypedExpr)
    → analyze (insert name ns vs) cat ≡ ok (resolved_insert t cs tvs)
    → (get_table cat name ≡ some t)
      × (target_columns t ns ≡ ok cs)
      × (resolve_values t cs vs ≡ ok tvs)
unfolding analyze
insert_parts name ns vs cat t cs tvs h =
    let (table, there, e) =
      in_table_ok cat name (λ table. analyze_insert table ns vs) (resolved_insert t cs tvs) h in
    let (same, a, b) = insert_resolved table ns vs cs tvs t e in
    (there ∙ ap (λ (x : TableDef). some x) (sym same), rw same a, rw same b)

select_analyzed :
    (name : String) (cat : Catalog) (table : TableDef) (c : ColumnDef) (v : Expr) (tv : TypedExpr)
    → get_table cat name ≡ some table
    → find_column table table.primary_key ≡ some c
    → resolve_for table c v ≡ ok tv
    → analyze (select_by name table v) cat
      ≡ ok (resolved_select table none (some (record { pk_column = c; op = "="; value = tv })))
unfolding analyze
select_analyzed name cat table c v tv there column fits =
    let w : ResolvedWhere = record { pk_column = c; op = "="; value = tv } in
    let e = binary (column_ref table.primary_key) "=" v in
    in_table_there cat name (λ t. analyze_select t (star ∷ []) (some e)) table there
    ∙ select_resolved table w e (where_resolved table c v tv column fits)

-- Where an INSERT is analyzed, planned and executed without an error, at a store and a JSON encoder
-- that do as they are documented, it has a value for the primary key, and `SELECT *` by that value
-- then runs and answers with exactly one row: the columns of the table, with the values that the
-- inserted row is read back with.
pub insert_select :
    {K : Type 0} (ops : KvOps K) (json : Json) (format_int : ℤ → String) (read_back : Row → Row)
    (name : String) (ns : List String) (vs : List Expr) (cat after : Catalog) (kv next : K)
    (table : TableDef) (cs : List ColumnDef) (tvs : List TypedExpr) (key : String) (row : Row)
    (r : ResultSet)
    → Keeps ops json read_back
    → analyze (insert name ns vs) cat ≡ ok (resolved_insert table cs tvs)
    → plan_insert format_int table cs tvs ≡ planned (insert_plan key row table)
    → execute ops json (insert_plan key row table) kv cat ≡ ((next, after), result r)
    → (tv : TypedExpr) × (find_pk_value table cs tvs ≡ some tv)
      × Runs ops json format_int
          (select_by name table tv.expr)
          next
          cat
          next
          (row_set table (read_back row))
insert_select ops json format_int read_back name ns vs cat after kv next table cs tvs key row r
      keeps analyzed plans executed =
    let (there, columns, values) = insert_parts name ns vs cat table cs tvs analyzed in
    let (tv, found, pk, text_of, at) = insert_planned format_int table table cs tvs key row plans in
    let (c, v, first, fits) = pk_resolved table cs vs tvs tv values found in
    let column = target_columns_first table ns cs table.primary_key c columns first in
    let same = resolve_for_same table c v tv fits in
    let (data_text, encoded, put) =
      insert_executed ops json kv next key row r
        (insert_state ops json kv next cat after key row table r executed) in
    (
      tv,
      found,
      record {
        resolved =
            resolved_select table none (some (record { pk_column = c; op = "="; value = tv }));
        physical = point_get key table none;
        analyzed = select_analyzed name cat table c tv.expr tv there column (rw same fits);
        plans =
            select_planned format_int table c tv pk text_of
            ∙ ap (λ (k : String). planned (point_get k table none)) at;
        executed =
            get_executed ops json next cat key data_text table (read_back row)
              (keeps.gets kv next key data_text put) (keeps.decodes row data_text encoded);
      },
    )
