-- ===== src/Acquisition.antt =====
-- backend/src/role_builder/services/acquisition: the tools of the MCP facade.
pub mod Errors
pub mod Filters
pub mod Selection
pub mod StatusShape
pub mod Status
pub mod Corpus
pub mod AutoSelect
pub mod Admin
pub mod RequestCreation
pub mod Discovery
pub mod Upload
pub mod PlatformDetection
pub mod RequestKey
pub mod Submission
