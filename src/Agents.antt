-- ===== src/Agents.antt =====
-- The agents of graph-worker/graphrag-service/src/domain/graphrag/agents.
pub mod Groups
pub mod Relationships
pub mod Entities
pub mod Descriptions
