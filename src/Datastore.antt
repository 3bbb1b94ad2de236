-- ===== src/Datastore.antt =====
-- The SQLite backend of pkg/datastore: its tables, the lock protocol, and commit and rollback.
pub mod Table
pub mod Tests
pub mod Schema
pub mod Locks
pub mod Commits
pub mod Steps
pub mod WellFormed
pub mod Invariant
