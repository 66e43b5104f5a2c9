-- ===== src/Domain.antt =====
-- server/internal/domain: the enumerations, the entities and what makes them valid.
pub mod Enums
pub mod Entities
pub mod Validate
pub mod ArchiveName
pub mod FileName
unfoldable pub use Enums.*
unfoldable pub use Entities.*
pub mod NewJob
