-- ===== src/Providers.antt =====
-- The providers (isales_engine/providers).
pub mod TtsCache
pub mod LlmRegistry
