-- ===== src/SubmissionApi.antt =====
-- services/submission-api.
pub mod Board
pub mod Create
pub mod Errors
