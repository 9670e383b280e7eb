-- ===== src/Sql/Steps.antt =====
-- The steps of an INSERT and of a SELECT by the primary key, one by one.
use doki.Prelude.{
  ℕ, String, Bool, true, false, ◌≡◌, refl, ap, arith, Option-cases, inl, inr, List, [], ◌∷◌, Option,
  none, some, str_eq_refl,
}
use doki.Config.{ℤ}
use doki.Sql.Ast.{Expr, binary, column_ref, star, ColumnDef, Statement, select}
use doki.Sql.Catalog.{Catalog, TableDef, find_column, row_key, get_table}
use doki.Sql.Analyzer
use doki.Sql.Analyzer.{
  TypedExpr, ResolvedWhere, Resolved, resolved_insert, resolved_select, Answer, ok, failed, Err,
  and_then, or_err, check_that, resolve_expr, resolve_literal, resolve_for, same_type,
  resolve_values, columns_named, target_columns, analyze_insert, analyze_select, in_table, analyze,
  resolve_where, resolve_condition, resolve_projection,
}
use doki.Sql.Planner.{
  Row, PhysicalPlan, Planned, planned, insert_plan, point_get, find_pk_value, plan, plan_insert,
  plan_select, at_key, with_row, row_onto, eval_literal_to_string,
}
use doki.Sql.Executor.{
  KvOps, got, Json, ResultSet, Result, result, resolve_columns, column_names, project_row, execute,
  execute_insert, execute_point_get, put_row, one_row, read_row, done,
}
use doki.Sql.Resolved.{and_then_ok, or_err_ok}

-- The statement `SELECT * FROM name WHERE pk = v`.
abbrev pub select_by : String → TableDef → Expr → Statement
select_by name table v =
    select (star ∷ []) name (some (binary (column_ref table.primary_key) "=" v))

pub where_resolved :
    (table : TableDef) (c : ColumnDef) (v : Expr) (tv : TypedExpr)
    → find_column table table.primary_key ≡ some c
    → resolve_for table c v ≡ ok tv
    → resolve_where table (binary (column_ref table.primary_key) "=" v)
      ≡ ok (record { pk_column = c; op = "="; value = tv })
unfolding resolve_where and_then check_that or_err
where_resolved table c v tv there fits =
    rw (str_eq_refl table.primary_key) (rw there (rw fits refl))

pub select_resolved :
    (table : TableDef) (w : ResolvedWhere) (e : Expr)
    → resolve_where table e ≡ ok w
    → analyze_select table (star ∷ []) (some e) ≡ ok (resolved_select table none (some w))
unfolding analyze_select resolve_projection resolve_condition and_then
select_resolved table w e h = rw h refl

pub in_table_ok :
    (cat : Catalog) (name : String) (next : TableDef → Answer Resolved) (r : Resolved)
    → in_table cat name next ≡ ok r
    → (table : TableDef) × (get_table cat name ≡ some table) × (next table ≡ ok r)
unfolding in_table
in_table_ok cat name next r h =
    let (table, e, k) =
      and_then_ok (or_err (get_table cat name) Analyzer.table_not_found) next r h in
    (table, or_err_ok (get_table cat name) Analyzer.table_not_found table e, k)

pub in_table_there :
    (cat : Catalog) (name : String) (next : TableDef → Answer Resolved) (table : TableDef)
    → get_table cat name ≡ some table
    → in_table cat name next ≡ next table
unfolding in_table or_err and_then
in_table_there cat name next table there = rw there refl

at_key_planned :
    (format_int : ℤ → String) (table : TableDef) (tv : TypedExpr) (next : String → Planned)
    (p : PhysicalPlan)
    → at_key format_int table tv next ≡ planned p
    → (pk : String) × (eval_literal_to_string format_int tv ≡ some pk)
      × (next (row_key table.name pk) ≡ planned p)
unfolding at_key
at_key_planned format_int table tv next p h =
    elim (Option-cases (eval_literal_to_string format_int tv)) [
      | inl missing ↦ absurd (ground (h, missing, arith))
      | inr (pk, there) ↦ (pk, there, ground (h, there, arith))
    ]

with_row_planned :
    (format_int : ℤ → String) (key k : String) (table t : TableDef) (o : Option Row) (row : Row)
    → with_row format_int key table o ≡ planned (insert_plan k row t)
    → key ≡ k
unfolding with_row
with_row_planned format_int key k table t none row h = absurd (ground (h, arith))
with_row_planned format_int key k table t (some r) row h = ground (h, arith)

-- An INSERT is planned at the key that its primary key's value gives.
pub insert_planned :
    (format_int : ℤ → String) (table t : TableDef) (cs : List ColumnDef) (tvs : List TypedExpr)
    (key : String) (row : Row)
    → plan_insert format_int table cs tvs ≡ planned (insert_plan key row t)
    → (tv : TypedExpr) × (find_pk_value table cs tvs ≡ some tv)
      × (pk : String) × (eval_literal_to_string format_int tv ≡ some pk)
      × (row_key table.name pk ≡ key)
unfolding plan_insert
insert_planned format_int table t cs tvs key row h =
    elim (Option-cases (find_pk_value table cs tvs)) [
      | inl missing ↦ absurd (ground (h, missing, arith))
      | inr (tv, there) ↦
          let next : String → Planned = λ k. with_row format_int k table (row_onto [] cs tvs) in
          let e : at_key format_int table tv next ≡ planned (insert_plan key row t) =
            ground (h, there, arith) in
          let (pk, f, g) = at_key_planned format_int table tv next (insert_plan key row t) e in
          (
            tv,
            there,
            pk,
            f,
            with_row_planned format_int (row_key table.name pk) key table t (row_onto [] cs tvs) row
                g,
          )
    ]

done_fine : (n : ℕ) (fine : Bool) (r : ResultSet) → done n fine ≡ result r → fine ≡ true
unfolding done
done_fine n true r h = refl
done_fine n false r h = absurd (ground (h, arith))

pub insert_executed :
    {K : Type 0} (ops : KvOps K) (json : Json) (kv next : K) (key : String) (row : Row)
    (r : ResultSet)
    → execute_insert ops json kv key row ≡ (next, result r)
    → (data_text : String) × (json.encode row ≡ some data_text)
      × (ops.put kv key data_text ≡ (next, true))
unfolding execute_insert put_row
insert_executed ops json kv next key row r h = elim (Option-cases (json.encode row)) [
  | inl missing ↦ absurd (ground (h, missing, arith))
  | inr (data_text, there) ↦
      let put = ops.put kv key data_text in
      let a : put.0 ≡ next = ground (h, there, arith) in
      let b : done 1 put.1 ≡ result r = ground (h, there, arith) in
      (data_text, there, rw⁻¹ a (rw⁻¹ (done_fine 1 put.1 r b) refl))
]

pub insert_state :
    {K : Type 0} (ops : KvOps K) (json : Json) (kv next : K) (cat after : Catalog) (key : String)
    (row : Row) (table : TableDef) (r : ResultSet)
    → execute ops json (insert_plan key row table) kv cat ≡ ((next, after), result r)
    → execute_insert ops json kv key row ≡ (next, result r)
unfolding execute
insert_state {K = K} ops json kv next cat after key row table r h =
    ap (λ (p : (K × Catalog) × Result). (p.0.0, p.1)) h

-- The rows that a `SELECT *` by the key answers with.
abbrev pub row_set : TableDef → Row → ResultSet
row_set table row = record {
  columns = column_names table.columns;
  rows = project_row row table.columns ∷ [];
  rows_affected = 0;
}

pub get_executed :
    {K : Type 0} (ops : KvOps K) (json : Json) (kv : K) (cat : Catalog) (key data_text : String)
    (table : TableDef) (row : Row)
    → ops.get kv key ≡ got data_text
    → json.decode data_text ≡ some row
    → execute ops json (point_get key table none) kv cat ≡ ((kv, cat), result (row_set table row))
unfolding execute execute_point_get read_row one_row resolve_columns
get_executed ops json kv cat key data_text table row there decoded = rw there (rw decoded refl)

at_key_there :
    (format_int : ℤ → String) (table : TableDef) (tv : TypedExpr) (next : String → Planned)
    (pk : String)
    → eval_literal_to_string format_int tv ≡ some pk
    → at_key format_int table tv next ≡ next (row_key table.name pk)
unfolding at_key
at_key_there format_int table tv next pk there = ground (there, arith)

pub select_planned :
    (format_int : ℤ → String) (table : TableDef) (c : ColumnDef) (tv : TypedExpr) (pk : String)
    → eval_literal_to_string format_int tv ≡ some pk
    → plan format_int
        (resolved_select table none (some (record { pk_column = c; op = "="; value = tv })))
      ≡ planned (point_get (row_key table.name pk) table none)
unfolding plan plan_select
select_planned format_int table c tv pk there =
    at_key_there format_int table tv (λ key. planned (point_get key table none)) pk there
