-- ===== src/Sql/Examples.antt =====
-- A table of two text columns, a store of pairs, and an encoder of one column.
use doki.Prelude.{
  ℕ, String, Bool, true, false, List, [], ◌∷◌, Option, none, some, ◌≡◌, refl, arith, str_eq_refl,
}
use doki.Config.{ℤ}
use doki.Storage
use doki.Storage.{Kv, lookup, with_pair}
use doki.Storage.Laws.{lookup-with_pair}
use doki.Sql.Ast
use doki.Sql.Ast.{Statement, Value, text, literal, insert, ColumnDef, type_text}
use doki.Sql.Catalog.{Catalog, TableDef, get_table, row_key}
use doki.Sql.Analyzer.{TypedExpr, ok, analyze, resolved_insert}
use doki.Sql.Planner.{Row, planned, insert_plan, find_pk_value, plan_insert}
use doki.Sql.Executor.{KvOps, Got, got, not_found, Json, value_at, execute, result, ResultSet}
use doki.Sql.Parser.{Token, parsed, parse_statement}
use doki.Sql.Steps.{select_by, row_set}
use doki.Sql.RoundTrip.{Keeps, Runs, insert_select}

abbrev got_or : Option String → Got
got_or none = not_found
got_or (some v) = got v

abbrev ops : KvOps Kv
ops = record {
  get = λ kv key. got_or (lookup kv key);
  put = λ kv key value. (with_pair kv key value, true);
  delete = λ kv key. (Storage.without kv key, true);
  scan = λ kv prefix. some kv;
}

-- Only the text of the column "name" is encoded.
abbrev text_of : Value → Option String
text_of (text s) = some s
text_of _ = none

abbrev json : Json
json = record {
  encode = λ row. text_of (value_at row "name");
  decode = λ data_text. some (("name", text data_text) ∷ []);
}

abbrev read_back : Row → Row
read_back row = ("name", value_at row "name") ∷ []

text_of-some : (v : Value) (s : String) → text_of v ≡ some s → v ≡ text s
text_of-some (text t) s h = ground (h, arith)
text_of-some (Ast.int n) s h = absurd (ground (h, arith))
text_of-some (Ast.bool b) s h = absurd (ground (h, arith))
text_of-some Ast.null s h = absurd (ground (h, arith))
text_of-some (Ast.float n) s h = absurd (ground (h, arith))

keeps : Keeps ops json read_back
keeps = record {
  gets = λ kv next key value put.
      ground (arith, put, lookup-with_pair kv key value key, str_eq_refl key);
  decodes = λ row s h. rw (text_of-some (value_at row "name") s h) refl;
}

abbrev column : String → Bool → ColumnDef
column name pk = record { name = name; ctype = type_text; primary_key = pk; not_null = false }

abbrev users : TableDef
users = record {
  name = "users";
  columns = column "id" true ∷ column "name" false ∷ [];
  primary_key = "id";
  shard_id = "";
}

abbrev cat : Catalog
cat = record { tables = ("users", users) ∷ [] }

abbrev typed : String → TypedExpr
typed s = record { expr = literal (text s); ctype = type_text }

abbrev fmt : ℤ → String
fmt n = "0"

abbrev row : Row
row = ("name", text "ann") ∷ ("id", text "u1") ∷ []

abbrev after : Kv
after = ("users/u1", "ann") ∷ []

abbrev one : ResultSet
one = record { columns = []; rows = []; rows_affected = 1 }

analyzed :
    analyze (insert "users" [] (literal (text "u1") ∷ literal (text "ann") ∷ [])) cat
    ≡ ok (resolved_insert users users.columns (typed "u1" ∷ typed "ann" ∷ []))
unfolding analyze get_table lookup
analyzed = refl

plans :
    plan_insert fmt users users.columns (typed "u1" ∷ typed "ann" ∷ [])
    ≡ planned (insert_plan "users/u1" row users)
unfolding plan_insert row_key with_pair Storage.without
plans = refl

executed : execute ops json (insert_plan "users/u1" row users) [] cat ≡ ((after, cat), result one)
unfolding execute lookup with_pair Storage.without value_at
executed = refl

insert_select_example :
    (tv : TypedExpr) × (find_pk_value users users.columns (typed "u1" ∷ typed "ann" ∷ []) ≡ some tv)
    × Runs ops json fmt
        (select_by "users" users tv.expr)
        after
        cat
        after
        (row_set users (read_back row))
insert_select_example =
    insert_select ops json fmt read_back "users" []
      (literal (text "u1") ∷ literal (text "ann") ∷ []) cat cat [] after users users.columns
      (typed "u1" ∷ typed "ann" ∷ []) "users/u1" row one keeps analyzed plans executed

abbrev token : String → String → ℕ → Token
token ttype lit at = record { ttype = ttype; literal = lit; pos = at }

-- `DELETE FROM t WHERE (id = 'a') ;`
abbrev tokens : List Token
tokens =
    token "DELETE" "DELETE" 0
    ∷ token "FROM" "FROM" 7
    ∷ token "IDENT" "t" 12
    ∷ token "WHERE" "WHERE" 14
    ∷ token "(" "(" 20
    ∷ token "IDENT" "id" 21
    ∷ token "=" "=" 24
    ∷ token "STRING" "a" 26
    ∷ token ")" ")" 29
    ∷ token ";" ";" 31
    ∷ token "EOF" "" 32
    ∷ []

abbrev ints : String → Option ℤ
ints s = none

abbrev same : String → String
same s = s

parses :
    parse_statement ints same tokens
    ≡ parsed
        (Ast.delete "t" (some (Ast.binary (Ast.column_ref "id") "=" (literal (text "a")))))
        (token "EOF" "" 32 ∷ [])
unfolding parse_statement
parses = refl
