-- ===== src/Query.antt =====
-- internal/query: the query language of the log viewer.
pub mod Ast
pub mod Optimize
pub mod TimeRange
pub mod Glob
pub mod Values
pub mod Parse
pub mod Tokens
