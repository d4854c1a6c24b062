-- ===== src/Tests.antt =====
-- Concrete parameters, and the theorems at inputs where their hypotheses hold.
mod Artifacts
mod Cluster
mod Database
mod Demo
mod Github
mod Json
mod Jwt
mod Webhook
mod Web
mod Sizes
mod People
mod Site
mod Sessions
pub mod Gen
pub mod Counter
pub mod Whole
pub mod Clones
pub mod Extraction
pub mod Disk
pub mod Charts
pub mod Slugs
