-- ===== src/Pipeline.antt =====
-- The GraphRAG pipeline: which stages run (graph-worker/graphrag-service/src/domain/graphrag/pipeline.py)
-- and how they run (domain/shared/pipeline_runner.py).
pub mod Selection
pub mod Runner
