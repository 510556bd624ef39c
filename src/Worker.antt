-- ===== src/Worker.antt =====
-- The queue worker, graph-worker/graphrag-service/src/worker.
pub mod Retry
pub mod Guard
pub mod Consumer
pub mod Reconnect
pub mod Processor
