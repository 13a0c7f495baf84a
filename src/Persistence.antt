-- ===== src/Persistence.antt =====
-- internal/infrastructure/persistence: the repositories, one module for each. Their SQL statements
-- are functions of the tables.
pub mod Users
pub mod Teams
pub mod TaskFields
pub mod Tasks
pub mod Comments
pub mod Messages
pub mod Analytics
