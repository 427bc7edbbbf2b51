-- ===== src/Startup.antt =====
-- What runs beside the pipeline: the migrations at the start of the process, and the relay of
-- notifications.
pub mod Migrations
pub mod Relay
