-- ===== src/Acquisition/Upload.antt =====
-- services/acquisition/upload
pub mod TranscriptionEntry
pub mod Intake
pub mod Finalize
pub mod Extraction
