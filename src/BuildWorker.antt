-- ===== src/BuildWorker.antt =====
-- services/build-worker, but the archive test, which is in Security.
pub mod Containers
pub mod Pipeline
