-- ===== src/Remote.antt =====
-- server/internal/remote: connections to a server and their output.
pub mod CappedWriter
pub mod HostKey
pub mod Dialer
pub mod TestConnection
pub mod Verdict
