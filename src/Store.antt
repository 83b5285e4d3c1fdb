-- ===== src/Store.antt =====
-- The database (src/infrastructure/database): the rows of the tables (Rows, FieldRows, Plant,
-- SalesRows), the
-- state and the transactions (Monad), the statements that the repositories share (Statements), what
-- a call keeps (Keeps).
pub mod Rows
pub mod FieldRows
pub mod Plant
pub mod SalesRows
pub mod Monad
pub mod Statements
pub mod Keeps
pub mod Ran
