-- ===== src/Sync.antt =====
-- The control loop of one set (xstateful_set_control.go): from the set and its pods to the calls
-- that create, update and delete pods, and to the new status.
pub mod Config
pub mod Rolling
pub mod Replica
pub mod Partition
pub mod Places
pub mod Ordinals
pub mod Descending
pub mod Update
pub mod Revisions
pub mod Outcomes
pub mod Resolving
pub mod Perform
pub mod Deletions
pub mod Steps
pub mod Ordered
pub mod Condemned
pub mod Pass
