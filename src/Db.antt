-- ===== src/Db.antt =====
-- The PostgreSQL tables and the SQL statements of backend/src/role_builder/db_helpers.
pub mod Schema
pub mod Sources
pub mod SourceItems
pub mod ScrapingJobs
pub mod TranscriptionJobs
pub mod Requests
pub mod DepositQueue
pub mod PullCursors
pub mod TranscriptionKeys
pub mod UploadSlots
pub mod Credentials
pub mod UserWallets
pub mod UserSecrets
