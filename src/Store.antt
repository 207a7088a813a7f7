-- ===== src/Store.antt =====
-- The state that the use cases work on: the database, and what comes from outside.
pub mod Table
pub mod World
pub mod Repos
pub mod UnitOfWork
pub mod Keeps
pub mod Clock
pub mod Runs
pub mod Versions
pub mod Relay
