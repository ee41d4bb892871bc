-- ===== src/Realtime.antt =====
-- The realtime detectors (isales_engine/realtime, transfer and wrapup).
pub mod InterruptionRules
pub mod Choice
pub mod Silence
pub mod WrapUp
pub mod Transfer
pub mod Filler
pub mod Playout
pub mod RtcTelephony
