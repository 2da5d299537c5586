-- ===== src/Tests.antt =====
-- Test data, and runs of the theorems at concrete inputs.
mod Data
mod Gateways
mod Joins
mod ServiceTasks
mod Logs
mod Migrations
mod Operations
mod Calls
