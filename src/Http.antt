-- ===== src/Http.antt =====
-- internal/transport/http: the handlers of the API and what stands before them.
pub mod Kit
pub mod Rules
pub mod Query
pub mod Trim
pub mod Tasks
pub mod Comments
pub mod Teams
pub mod Auth
pub mod Analytics
pub mod Middleware
pub mod Router
