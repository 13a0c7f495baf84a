-- ===== src/Examples.antt =====
-- Concrete runs at which the theorems are applied.
pub mod Data
pub mod Relay
pub mod World
pub mod Site
pub mod Http
pub mod Access
pub mod Running
pub mod Services
pub mod Reports
