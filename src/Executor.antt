-- ===== src/Executor.antt =====
-- engine-core/src/engine/executor: the execution of process instances.
pub mod Helpers
pub mod JoinSearch
pub mod Joins
pub mod Scripts
pub mod Handlers
pub mod Step
pub mod NextActions
pub mod Batch
