-- ===== src/Claims.antt =====
-- Persistent volume claims: who owns them under the retention policy, and how a pod's volumes
-- name them.
pub mod Owners
pub mod Foreign
pub mod Converge
pub mod Policy
pub mod Storage
