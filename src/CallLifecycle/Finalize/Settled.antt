-- ===== src/CallLifecycle/Finalize/Settled.antt =====
-- What is settled at the end of a call, however Redis and the database fare.
use isales_engine.CallLifecycle.Finalize.{
  extract, World, Services, mark_pending, lpush_extract, hand_to_extractor, cause_of,
  finalize_session,
}
use isales_engine.CallLifecycle.{lpush_retried, max_retries}
use isales_engine.TranscriptRecorder as Recorder
use isales_engine.TranscriptRecorder.{CallRecord, Database, LiveCall, transact, persist_call_record}
use isales_engine.TranscriptRecorder.Persisted.{persist_call_record-IsPersisted}
use isales_engine.SessionManager.{SessionManager, unregister}
use isales_engine.Prelude.{
  if◌then◌else◌, Bool-cases, Option-cases, nat_eq, text_eq, ◌==◌, ==_refl, text, non_empty,
  lookup-insert, lookup-remove, lookup, remove, ℕ, ◌≡◌, refl, ap, ◌∙◌, inl, inr, false, not, ◌&&◌,
  none, some,
}

module _ (services : Services) where
  -- A call's rows but its own, as they were.
  abbrev SameOthers : ℕ → Database → Database → Type 0
  SameOthers k db db' =
      (i : ℕ) → (k == i) ≡ false → lookup i db'.call_records ≡ lookup i db.call_records

  mark_pending-SameOthers : (k : ℕ) (db : Database) → SameOthers k db (mark_pending k db)
  unfolding mark_pending
  mark_pending-SameOthers k db i other = elim (Option-cases (lookup k db.call_records)) [
    | inl absent ↦ rw (absent, mark_pending) refl
    | inr (row, there) ↦
        rw (there, mark_pending)
          (let pending : CallRecord = record row { extract_status = some (text "pending") } in
            lookup-insert k i pending db.call_records
            ∙ ap (λ b. if b then some pending else lookup i db.call_records) other)
  ]

  transact-SameOthers :
      (k : ℕ) (db db' : Database)
      → SameOthers k db db'
      → SameOthers k db (transact services.transfer_statuses services.db_fate (some db') db).1
  unfolding transact
  transact-SameOthers k db db' h = by_fate (services.db_fate db.transactions) refl
    where
      by_fate :
          (f : Recorder.Fate)
          → services.db_fate db.transactions ≡ f
          → SameOthers k db (transact services.transfer_statuses services.db_fate (some db') db).1
      by_fate Recorder.committed e = rw (e, transact) h
      by_fate Recorder.rolled_back e = rw (e, transact) (λ i other. refl)
      by_fate Recorder.unanswered e = rw (e, transact) h

  lpush_extract-keeps :
      (call : LiveCall) (w : World)
      → ((lpush_extract services call w).manager ≡ w.manager)
        × SameOthers call.call_record_id w.db (lpush_extract services call w).db
  unfolding lpush_extract
  lpush_extract-keeps call w =
      let payload =
        extract call.call_record_id call.session.dialog_history call.extractor_role_config_id
          call.extractor_prompt_version_id in
      elim (Bool-cases
        (lpush_retried services.redis_fate max_retries services.extract_queue payload w.redis).0) [
          | inl pushed ↦ rw pushed (
            refl,
            transact-SameOthers call.call_record_id w.db (mark_pending call.call_record_id w.db)
                (mark_pending-SameOthers call.call_record_id w.db),
          )
          | inr lost ↦ rw lost (refl, λ i other. refl)
        ]

  hand_to_extractor-keeps :
      (call : LiveCall) (w : World)
      → ((hand_to_extractor services call w).manager ≡ w.manager)
        × SameOthers call.call_record_id w.db (hand_to_extractor services call w).db
  unfolding hand_to_extractor
  hand_to_extractor-keeps call w =
      elim (Bool-cases
        (not (call.extractor_role_config_id == 0) && non_empty call.session.dialog_history)) [
          | inl asked ↦ rw asked (lpush_extract-keeps call w)
          | inr not_asked ↦ rw not_asked (refl, λ i other. refl)
        ]

  pub record IsSettled (call : LiveCall) (w w' : World) : Type 0 where
    pub gone : lookup call.call_record_id w'.manager.sessions ≡ none
    pub sessions : w'.manager.sessions ≡ remove call.call_record_id w.manager.sessions
    pub rows :
        (i : ℕ)
        → (call.call_record_id == i) ≡ false
        → lookup i w'.db.call_records ≡ lookup i w.db.call_records

  -- However the commands to Redis and the transactions fare, the call is no longer registered when
  -- it is finalized, and no other call's registration or row is touched.
  pub finalize_session-IsSettled :
      (call : LiveCall) (started_at ended_at : ℕ) (w : World)
      → IsSettled call w (finalize_session services call started_at ended_at w)
  unfolding finalize_session unregister
  finalize_session-IsSettled call started_at ended_at w =
      let k : ℕ = call.call_record_id in
      let ended : LiveCall = record call { hangup_cause = some (cause_of services call) } in
      let persisted =
        persist_call_record-IsPersisted services.transfer_statuses services.db_fate ended started_at
          ended_at max_retries w.db in
      let db =
        (persist_call_record services.transfer_statuses services.db_fate max_retries ended
          started_at ended_at w.db).1 in
      let handed = hand_to_extractor-keeps ended (record w { db = db }) in
      let left : remove k (hand_to_extractor services ended (record w { db = db })).manager.sessions
          ≡ remove k w.manager.sessions =
        ap (λ (m : SessionManager LiveCall). remove k m.sessions) handed.0 in
      record {
        gone =
            ap (λ d. lookup k d) left
            ∙ lookup-remove k k w.manager.sessions
            ∙ ap (λ b. if b then none else lookup k w.manager.sessions) (==_refl k);
        sessions = left;
        rows = λ i other. handed.1 i other ∙ persisted.others i other;
      }
