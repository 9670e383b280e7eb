-- ===== src/Sql/Ast.antt =====
-- internal/sql/ast.go: the statements and expressions that the parser makes.
use doki.Prelude.{ℕ, String, Bool, List, Option}
use doki.Config.{ℤ}

-- What a literal or a column of a row holds. A row that is read back from its JSON text has a
-- `float64`, given by its 64 bits, where an `int64` was written.
pub data Value : Type 0 where
  int : ℤ → Value
  text : String → Value
  bool : Bool → Value
  null : Value
  float : ℕ → Value

pub data Expr : Type 0 where
  binary : Expr → String → Expr → Expr
  column_ref : String → Expr
  literal : Value → Expr
  star : Expr

pub data ColumnType : Type 0 where
  type_int type_text type_bool : ColumnType

pub record ColumnDef : Type 0 where
  pub name : String
  pub ctype : ColumnType
  pub primary_key : Bool
  pub not_null : Bool

pub record Assignment : Type 0 where
  pub column : String
  pub value : Expr

-- No columns, as in `SELECT *` and in an INSERT without a column list, is the empty list.
pub data Statement : Type 0 where
  create_table : String → List ColumnDef → Statement
  insert : String → List String → List Expr → Statement
  select : List Expr → String → Option Expr → Statement
  update : String → List Assignment → Option Expr → Statement
  delete : String → Option Expr → Statement
