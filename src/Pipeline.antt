-- ===== src/Pipeline.antt =====
-- The long-running tasks of the backend: backend/src/role_builder/services.
pub mod EventHandlers
pub mod Orchestrator
pub mod DepositWorker
pub mod WorkerManager
