-- ===== src/PodControl.antt =====
-- StatefulPodControl (xstateful_pod_control.go): pods and claims are created, updated and deleted
-- through an object manager.
pub mod Platform
pub mod Claims
pub mod Pods
pub mod Writes
pub mod Creation
