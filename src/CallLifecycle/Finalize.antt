-- ===== src/CallLifecycle/Finalize.antt =====
-- isales_engine/call_lifecycle.py: `reserve_call_record` and `finalize_session`, over Redis, the
-- database and the registry of the calls.
pub mod Settled
use isales_engine.CallLifecycle.{
  Fate, Redis, lpush_retried, decr_concurrency, max_retries, resolve_hangup_cause,
}
use isales_engine.TranscriptRecorder as Recorder
use isales_engine.TranscriptRecorder.{
  Database, CallRecord, RowStatus, LiveCall, transact, persist_call_record, no_transfer_status,
}
use isales_engine.CallSession.{DialogTurn}
use isales_engine.SessionManager.{SessionManager, unregister}
use isales_engine.Prelude.{
  if◌then◌else◌, nat_eq, text_eq, ◌==◌, Text, text, non_empty, lookup, insert, ℕ, not, ◌&&◌, none,
  some, List,
}

-- What is pushed: the extractor's task, the end of a call, and a message that is dead-lettered.
pub data Payload : Type 0 where
  extract : ℕ → List DialogTurn → ℕ → ℕ → Payload
  call_ended : ℕ → Text → ℕ → Payload
  dead_letter : Text → Payload

pub record World : Type 0 where
  pub redis : Redis Payload
  pub db : Database
  pub manager : SessionManager LiveCall

-- The surroundings: the enumerations of isales_common, the names of the queues, and the fates of
-- the commands to Redis and of the transactions.
pub record Services : Type 0 where
  pub hangup_causes : List Text
  pub normal_clearing : Text
  pub transfer_statuses : List Text
  pub extract_queue : Text
  pub call_ended_queue : Text
  pub dlq : Text
  pub redis_fate : ℕ → Fate
  pub db_fate : ℕ → Recorder.Fate

-- `UPDATE … SET extract_status = 'pending'`
unfoldable pub mark_pending : ℕ → Database → Database
unfolding lookup insert
mark_pending call_record_id db = elim (lookup call_record_id db.call_records) [
  | none ↦ db
  | some row ↦ record db {
    call_records =
        insert call_record_id (record row { extract_status = some (text "pending") })
          db.call_records;
  }
]

module _ (services : Services) where
  unfoldable pub lpush_extract : LiveCall → World → World
  unfolding lpush_retried mark_pending transact
  lpush_extract call w =
      let payload =
        extract call.call_record_id call.session.dialog_history call.extractor_role_config_id
          call.extractor_prompt_version_id in
      let (pushed, redis) =
        lpush_retried services.redis_fate max_retries services.extract_queue payload w.redis in
      let (_, db) =
        transact services.transfer_statuses services.db_fate
          (some (mark_pending call.call_record_id w.db)) w.db in
      if pushed then record w { redis = redis; db = db } else record w { redis = redis }

  -- The transcript goes to the extractor if one is configured and there is a dialog.
  unfoldable pub hand_to_extractor : LiveCall → World → World
  unfolding lpush_extract
  hand_to_extractor call w =
      if not (call.extractor_role_config_id == 0) && non_empty call.session.dialog_history
      then lpush_extract call w
      else w

  unfoldable pub cause_of : LiveCall → Text
  unfolding resolve_hangup_cause
  cause_of call =
      resolve_hangup_cause services.hangup_causes services.normal_clearing call.hangup_cause

  unfoldable pub finalize_session : LiveCall → ℕ → ℕ → World → World
  unfolding cause_of hand_to_extractor persist_call_record lpush_retried decr_concurrency unregister
  finalize_session session started_at ended_at w =
      let cause = cause_of session in
      let call : LiveCall = record session { hangup_cause = some cause } in
      let (_, db) =
        persist_call_record services.transfer_statuses services.db_fate max_retries call started_at
          ended_at w.db in
      let handed = hand_to_extractor call (record w { db = db }) in
      let (_, pushed) =
        lpush_retried services.redis_fate max_retries services.call_ended_queue
          (call_ended call.call_record_id cause ended_at) handed.redis in
      let (_, counted) = decr_concurrency services.redis_fate max_retries pushed in
      let (_, manager) = unregister call.call_record_id handed.manager in
      record handed { redis = counted; manager = manager }
