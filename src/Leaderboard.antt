-- ===== src/Leaderboard.antt =====
-- services/leaderboard-api.
pub mod Commentary
pub mod Hub
pub mod Predictor
pub mod Scorer
