-- ===== src/SessionManager.antt =====
-- isales_engine/session_manager.py: the registry of the calls in flight. A session of type S has a
-- `call_record_id`. `cancel_all`, which cancels tasks of the event loop, is not modelled.
pub mod Registry
mod Examples
use isales_engine.Prelude.{
  if◌then◌else◌, length, nat_eq, text_eq, Dict, lookup, insert, remove, ℕ, Bool, true, false,
  Option, none, some, List, [], map,
}

pub record SessionManager (S : Type 0) : Type 0 where
  pub sessions : Dict ℕ S

module _ {S : Type 0} where
  unfoldable pub new : SessionManager S
  new = record { sessions = [] }

  unfoldable pub get : ℕ → SessionManager S → Option S
  unfolding lookup
  get call_record_id manager = lookup call_record_id manager.sessions

  unfoldable pub is_registered : ℕ → SessionManager S → Bool
  unfolding lookup
  is_registered call_record_id manager = elim (lookup call_record_id manager.sessions) [
    | none ↦ false
    | some _ ↦ true
  ]

  unfoldable pub unregister : ℕ → SessionManager S → Option S × SessionManager S
  unfolding lookup remove
  unregister call_record_id manager = (
    lookup call_record_id manager.sessions,
    record manager { sessions = remove call_record_id manager.sessions },
  )

  unfoldable pub active_count : SessionManager S → ℕ
  active_count manager = length manager.sessions

  unfoldable pub all_sessions : SessionManager S → List S
  all_sessions manager = map (λ entry. entry.1) manager.sessions

module _ {S : Type 0} (call_record_id : S → ℕ) where
  -- A second session under one id is refused with a log line.
  unfoldable pub register : S → SessionManager S → SessionManager S
  unfolding is_registered insert
  register session manager =
      if is_registered (call_record_id session) manager
      then manager
      else record manager { sessions = insert (call_record_id session) session manager.sessions }
