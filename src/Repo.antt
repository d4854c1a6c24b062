-- ===== src/Repo.antt =====
-- src/repo: the database, the extraction of configurations, and the clients of Git, Docker and
-- GitHub's app.
pub mod Store
pub mod Docker
pub mod Github
pub mod Git
pub mod Extract
