-- ===== src/Pipeline.antt =====
-- The decision side of a turn (isales_engine/pipeline and isales_engine/referee.py).
pub mod Decider
pub mod PromptBuilder
pub mod Orchestrator
