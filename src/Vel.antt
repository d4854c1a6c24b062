-- ===== src/Vel.antt =====
-- pkg/vel: the RPC layer over net/http.
pub mod Error
pub mod Http
pub mod Rpc
pub mod Router
pub mod Auth
pub mod Log
pub mod Gen
