-- ===== src/Sql/Catalog.antt =====
-- internal/sql/catalog.go: the tables, and the keys of their rows.
use Prim.Native.String.{◌++◌ as ◌^^◌}
use doki.Prelude.{
  String, Bool, true, false, List, [], ◌∷◌, Option, none, some, map, if◌then◌else◌, str_eq,
}
use doki.Storage.{Pairs, lookup, with_pair}
use doki.Sql.Ast.{ColumnDef}

pub record TableDef : Type 0 where
  pub name : String
  pub columns : List ColumnDef
  pub primary_key : String
  pub shard_id : String

pub record Catalog : Type 0 where
  pub tables : Pairs TableDef

unfoldable pub new : Catalog
new = record { tables = [] }

-- `false` is the error of a table that already exists.
unfoldable pub create_table : Catalog → TableDef → Catalog × Bool
create_table c def = elim (lookup c.tables def.name) [
  | some _ ↦ (c, false)
  | none ↦ (record c { tables = with_pair c.tables def.name def }, true)
]

unfoldable pub get_table : Catalog → String → Option TableDef
get_table c name = lookup c.tables name

unfoldable pub list_tables : Catalog → List TableDef
list_tables c = map (λ (p : String × TableDef). p.1) c.tables

unfoldable pub row_key : String → String → String
row_key table pk_value = table ^^ "/" ^^ pk_value

unfoldable pub find_in : List ColumnDef → String → Option ColumnDef
find_in [] name = none
find_in (c ∷ cs) name = let rest = find_in cs name in if str_eq c.name name then some c else rest

-- `findColumn` of internal/sql/analyzer.go.
unfoldable pub find_column : TableDef → String → Option ColumnDef
unfolding find_in
find_column table name = find_in table.columns name
