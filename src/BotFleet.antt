-- ===== src/BotFleet.antt =====
-- services/bot-fleet.
pub mod CircuitBreaker
pub mod Consumer
pub mod FillCheck
pub mod Runner
pub mod ShadowBook
pub mod Telemetry
