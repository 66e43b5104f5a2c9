-- ===== src/Examples.antt =====
-- Concrete inputs, tests and witnesses.
pub mod Samples
pub mod Memory
pub mod Stores
pub mod Wire
pub mod Runs
pub mod Schedules
pub mod Archives
pub mod Checks
pub mod Actives
