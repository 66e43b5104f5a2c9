-- ===== src/Store.antt =====
-- server/internal/store: the SQLite persistence layer.
pub mod Convert
pub mod Lists
pub mod Rows
pub mod JobRows
pub mod LoadJobs
pub mod JobTrip
pub mod RowTrip
pub mod Table
pub mod Locks
pub mod LocksMap
pub mod Runs
pub mod Recovery
pub mod Settings
pub mod Jobs
pub mod Deletion
