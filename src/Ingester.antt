-- ===== src/Ingester.antt =====
-- services/telemetry-ingester.
pub mod Aggregator
pub mod Book
pub mod Histogram
pub mod Offsets
pub mod Pipeline
pub mod Reorder
pub mod SlidingWindow
pub mod Validator
pub mod Tps
