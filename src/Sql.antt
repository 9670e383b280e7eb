-- ===== src/Sql.antt =====
-- internal/sql/*.go: the SQL layer over a key-value store.
pub mod Ast
pub mod Catalog
pub mod Analyzer
pub mod Planner
pub mod Executor
pub mod Parser
pub mod Lexer
pub mod Resolved
pub mod Steps
pub mod RoundTrip
mod Examples
