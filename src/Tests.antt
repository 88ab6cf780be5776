-- ===== src/Tests.antt =====
-- Sample objects and a sample platform, and the theorems at these.
mod Samples
mod Witnesses
mod SyncWitnesses
mod ClusterSamples
mod ControllerWitnesses
mod UtilityWitnesses
mod CertificateWitnesses
