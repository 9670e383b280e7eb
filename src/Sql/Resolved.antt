-- ===== src/Sql/Resolved.antt =====
-- What the analysis of an INSERT in internal/sql/analyzer.go says of its primary key.
use doki.Prelude.{
  String, ◌≡◌, refl, ◌∙◌, sym, ap, arith, Bool-cases, inl, inr, List, [], ◌∷◌, Option, none, some,
  eq_iff, str_eq, length, ◌==◌,
}
use doki.Sql.Ast
use doki.Sql.Ast.{
  Value, Expr, binary, column_ref, literal, star, ColumnDef, Statement, insert, select,
}
use doki.Sql.Catalog.{TableDef, find_column, find_in}
use doki.Sql.Analyzer
use doki.Sql.Analyzer.{
  TypedExpr, ResolvedWhere, Resolved, resolved_insert, resolved_select, Answer, ok, failed, Err,
  and_then, or_err, check_that, resolve_expr, resolve_literal, resolve_for, same_type,
  resolve_values, columns_named, target_columns, analyze_insert, analyze_select, in_table, analyze,
  resolve_where, resolve_condition, resolve_projection,
}
use doki.Sql.Planner.{find_pk_value}

pub and_then_ok {ℓ κ} :
    {A : Type ℓ} {B : Type κ} (a : Answer A) (next : A → Answer B) (b : B)
    → and_then a next ≡ ok b
    → (x : A) × (a ≡ ok x) × (next x ≡ ok b)
unfolding and_then
and_then_ok (ok x) next b h = (x, refl, h)
and_then_ok (failed e) next b h = absurd (ground (h, arith))

pub or_err_ok {ℓ} : {A : Type ℓ} (o : Option A) (e : Err) (x : A) → or_err o e ≡ ok x → o ≡ some x
unfolding or_err
or_err_ok none e x h = absurd (ground (h, arith))
or_err_ok (some y) e x h = ground (h, arith)

find_in_name :
    (cs : List ColumnDef) (name : String) (c : ColumnDef) → find_in cs name ≡ some c → c.name ≡ name
unfolding find_in
find_in_name [] name c h = absurd (ground (h, arith))
find_in_name (d ∷ ds) name c h = elim (Bool-cases (str_eq d.name name)) [
  | inl same ↦
      let e : d ≡ c = ground (h, same, arith) in
      ap (λ (x : ColumnDef). x.name) (sym e) ∙ (eq_iff d.name name).0 same
  | inr other ↦ find_in_name ds name c (ground (h, other, arith))
]

-- The value of the primary key was resolved for the table's column of this name.
abbrev IsKeyValue : TableDef → TypedExpr → Type 0
IsKeyValue table tv =
    (c : ColumnDef) × (v : Expr) × (find_column table table.primary_key ≡ some c)
    × (resolve_for table c v ≡ ok tv)

resolve_values_cons :
    (table : TableDef) (c : ColumnDef) (cs : List ColumnDef) (v : Expr) (vs : List Expr)
    (tvs : List TypedExpr)
    → resolve_values table (c ∷ cs) (v ∷ vs) ≡ ok tvs
    → (tv : TypedExpr) × (rest : List TypedExpr) × (tvs ≡ tv ∷ rest)
      × (resolve_for table c v ≡ ok tv)
      × (resolve_values table cs vs ≡ ok rest)
unfolding resolve_values
resolve_values_cons table c cs v vs tvs h =
    let (tv, e, k) = and_then_ok (resolve_for table c v) _ tvs h in
    let (rest, f, l) = and_then_ok (resolve_values table cs vs) _ tvs k in
    (tv, rest, ground (l, arith), e, f)

no_values :
    (table : TableDef) (c : ColumnDef) (cs : List ColumnDef) (tvs : List TypedExpr)
    → resolve_values table (c ∷ cs) [] ≡ ok tvs
    → ⊥
unfolding resolve_values
no_values table c cs tvs h = ground (h, arith)

find_column_name :
    (table : TableDef) (name : String) (c : ColumnDef)
    → find_column table name ≡ some c
    → c.name ≡ name
unfolding find_column
find_column_name table name c h = find_in_name table.columns name c h

pub pk_resolved :
    (table : TableDef) (cs : List ColumnDef) (vs : List Expr) (tvs : List TypedExpr)
    (tv : TypedExpr)
    → resolve_values table cs vs ≡ ok tvs
    → find_pk_value table cs tvs ≡ some tv
    → (c : ColumnDef) × (v : Expr) × (find_in cs table.primary_key ≡ some c)
      × (resolve_for table c v ≡ ok tv)
unfolding find_pk_value find_in
pk_resolved table [] vs tvs tv h f = absurd (ground (f, arith))
pk_resolved table (c ∷ cs) [] tvs tv h f = absurd (no_values table c cs tvs h)
pk_resolved table (c ∷ cs) (v ∷ vs) tvs tv h f =
    let (first, rest, e, here, later) = resolve_values_cons table c cs v vs tvs h in
    elim (Bool-cases (str_eq c.name table.primary_key)) [
      | inl same ↦
          let q : first ≡ tv = ground (f, e, same, arith) in (c, v, rw same refl, rw⁻¹ q here)
      | inr other ↦
          let g : find_pk_value table cs rest ≡ some tv = ground (f, e, other, arith) in
          let (d, u, found, resolved) = pk_resolved table cs vs rest tv later g in
          (d, u, ground (found, other, arith), resolved)
    ]

columns_named_first :
    (table : TableDef) (ns : List String) (cs : List ColumnDef) (name : String) (c : ColumnDef)
    → columns_named table ns ≡ ok cs
    → find_in cs name ≡ some c
    → find_column table name ≡ some c
unfolding columns_named find_in
columns_named_first table [] cs name c h f =
    let e : [] ≡ cs = ground (h, arith) in absurd (ground (e, f, arith))
columns_named_first table (n ∷ ns) cs name c h f =
    let (d, e, k) = and_then_ok (or_err (find_column table n) Analyzer.column_not_found) _ cs h in
    let (rest, g, l) = and_then_ok (columns_named table ns) _ cs k in
    let there = or_err_ok (find_column table n) Analyzer.column_not_found d e in
    let made : d ∷ rest ≡ cs = ground (l, arith) in
    elim (Bool-cases (str_eq d.name name)) [
      | inl same ↦
          let q : d ≡ c = ground (f, made, same, arith) in
          let p : n ≡ name = sym (find_column_name table n d there) ∙ (eq_iff d.name name).0 same in
          ap (find_column table) (sym p) ∙ there ∙ ap (λ (x : ColumnDef). some x) q
      | inr other ↦ columns_named_first table ns rest name c g (ground (f, made, other, arith))
    ]

pub target_columns_first :
    (table : TableDef) (ns : List String) (cs : List ColumnDef) (name : String) (c : ColumnDef)
    → target_columns table ns ≡ ok cs
    → find_in cs name ≡ some c
    → find_column table name ≡ some c
unfolding target_columns find_column
target_columns_first table [] cs name c h f =
    let e : table.columns ≡ cs = ground (h, arith) in rw e f
target_columns_first table (n ∷ ns) cs name c h f = columns_named_first table (n ∷ ns) cs name c h f

pub insert_resolved :
    (table : TableDef) (ns : List String) (vs : List Expr) (cs : List ColumnDef)
    (tvs : List TypedExpr) (t : TableDef)
    → analyze_insert table ns vs ≡ ok (resolved_insert t cs tvs)
    → (t ≡ table) × (target_columns table ns ≡ ok cs) × (resolve_values table cs vs ≡ ok tvs)
unfolding analyze_insert
insert_resolved table ns vs cs tvs t h =
    let (ds, e, k) = and_then_ok (target_columns table ns) _ (resolved_insert t cs tvs) h in
    let (counted, f, l) =
      and_then_ok (check_that (length vs == length ds) Analyzer.value_count) _
        (resolved_insert t cs tvs) k in
    let (us, g, m) = and_then_ok (resolve_values table ds vs) _ (resolved_insert t cs tvs) l in
    let p : ds ≡ cs = ground (m, arith) in
    let q : us ≡ tvs = ground (m, arith) in (ground (m, arith), rw p at e, rw q at (rw p at g))

resolve_literal_same :
    (v : Value) (tv : TypedExpr) → resolve_literal v ≡ ok tv → tv.expr ≡ literal v
unfolding resolve_literal
resolve_literal_same (Ast.int n) tv h = ground (h, arith)
resolve_literal_same (Ast.text t) tv h = ground (h, arith)
resolve_literal_same (Ast.bool b) tv h = ground (h, arith)
resolve_literal_same Ast.null tv h = ground (h, arith)
resolve_literal_same (Ast.float n) tv h = absurd (ground (h, arith))

-- A resolved expression is the expression that was there.
resolve_expr_same :
    (v : Expr) (table : TableDef) (tv : TypedExpr) → resolve_expr v table ≡ ok tv → tv.expr ≡ v
unfolding resolve_expr
resolve_expr_same (literal v) table tv h = resolve_literal_same v tv h
resolve_expr_same (column_ref n) table tv h =
    let (c, e, k) = and_then_ok (or_err (find_column table n) Analyzer.column_not_found) _ tv h in
    ground (k, arith)
resolve_expr_same (binary l op r) table tv h = absurd (ground (h, arith))
resolve_expr_same star table tv h = absurd (ground (h, arith))

pub resolve_for_same :
    (table : TableDef) (c : ColumnDef) (v : Expr) (tv : TypedExpr)
    → resolve_for table c v ≡ ok tv
    → tv.expr ≡ v
unfolding resolve_for
resolve_for_same table c v tv h =
    let (u, e, k) = and_then_ok (resolve_expr v table) _ tv h in
    let (fits, f, l) =
      and_then_ok (check_that (same_type u.ctype c.ctype) Analyzer.type_mismatch) _ tv k in
    let q : u ≡ tv = ground (l, arith) in rw⁻¹ q (resolve_expr_same v table u e)
