-- ===== src/Pipeline/Orchestrator/Handover.antt =====
-- Handover
