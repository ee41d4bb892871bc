-- ===== src/Transport.antt =====
-- isales_engine/transport: the routing of the frames that edges send.
pub mod SessionDispatcher
pub mod RtcToken
