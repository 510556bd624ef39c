-- ===== src/Stage.antt =====
-- graph-worker/graphrag-service/src/core/base/stage.py: the base class of the stages.
pub mod Tpm
pub mod Run
