-- ===== src/Repo.antt =====
-- The tables of the operator's database: pkg/repos. Each query is the function on the table that
-- its SQL text states. `NOW()` is an argument. That a query can fail, by a timeout or because a
-- value does not fit its column, is left to `Node.query`, which runs it.
pub mod Table
pub mod Tasks
pub mod Operators
pub mod Blacklist
pub mod Responses
mod Tests
