-- ===== src/Domain.antt =====
-- src/domain.
pub mod Types
pub mod Handler
pub mod Run
pub mod Webhook
pub mod Profile
pub mod Deployments
pub mod Session
