-- ===== src/Tests.antt =====
-- Concrete inputs: the theorems at an input that meets their hypotheses.
mod Boards
mod Book
mod Builds
mod Fleet
mod Ingester
mod Orchestrator
mod Recovery
mod Services
