-- ===== src/Transcription.antt =====
-- docker/transcription-worker/worker: the container that transcribes.
pub mod ErrorClassifier
pub mod Worker
