-- ===== src/Runtime.antt =====
-- engine-core/src/runtime: instances, wait states and the actions of the execution loop.
pub mod Pending
pub mod Instance
pub mod Action
pub mod AuditLog
