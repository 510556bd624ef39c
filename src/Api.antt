-- ===== src/Api.antt =====
-- The stages API, graph-worker/graphrag-service/src/app/api/stages: it validates a request for a
-- pipeline and runs the selected stages in a background thread.
pub mod Fields
pub mod Validation
pub mod Tracker
pub mod State
pub mod Background
pub mod Execution
