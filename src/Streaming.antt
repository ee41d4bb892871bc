-- ===== src/Streaming.antt =====
-- The streaming pipeline's text side (isales_engine/streaming).
pub mod Types
pub mod SentenceSplitter
