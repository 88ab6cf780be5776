-- ===== src/Api.antt =====
-- The objects that the controller reads and writes: the shared metadata, pods, claims, controller
-- revisions, the XStatefulSet itself (api/apps/v1/types.go), and the errors of the API server.
-- Of the types that other packages declare, the fields are those that the modelled code uses.
mod Meta
mod Pods
mod Sets
mod Failures
pub use Meta.*
pub use Pods.*
pub use Sets.*
pub use Failures.*
