-- ===== src/Services.antt =====
-- src/services: the clients of the cluster and of GitHub's login.
pub mod Kube
pub mod Oauth
