-- ===== src/Service.antt =====
-- internal/service: the business logic over the repositories.
pub mod Authorizer
pub mod Auth
pub mod Teams
pub mod Cache
pub mod Tasks
pub mod Comments
pub mod Analytics
