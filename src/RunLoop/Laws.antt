-- ===== src/RunLoop/Laws.antt =====
-- What the run loop promises: of whole sessions, of the turns, and of what a barge-in leaves.
pub mod Sessions
pub mod Remainder
pub mod FailOpen
pub mod Dropped
pub mod Unanswered
pub mod Silence
pub mod Voiced
mod Examples
