-- ===== src/Backup.antt =====
-- server/internal/backup: the run engine.
pub mod World
pub mod ShellQuote
pub mod Checks
pub mod Context
pub mod Scripts
pub mod Archive
pub mod Download
pub mod Stages
pub mod Engine
pub mod FirstFailure
pub mod Conclusion
pub mod Cleanup
pub mod Registry
pub mod Enrolment
pub mod Visits
pub mod Once
pub mod Ready
pub mod Answered
pub mod Guarantee
pub mod Verified
pub mod Validator
pub mod Report
pub mod ShellWord
pub mod Respects
