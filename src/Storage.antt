-- ===== src/Storage.antt =====
-- packages/core/presidium-storage: the persisted state of a session.
pub mod Error
pub mod Models
pub mod Sql
pub mod Sqleet
pub mod Texts
pub mod Migrations
pub mod Tables
pub mod Store
pub mod Operations
mod Examples
pub mod Samples
pub mod SessionState
