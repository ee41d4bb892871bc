-- ===== src/TranscriptRecorder.antt =====
-- isales_engine/transcript_recorder.py: the rows of an ended call. A transaction has a fate: it is
-- committed, rolled back, or committed with its answer lost, and the last two raise. Times are in
-- microseconds; the waits between the attempts are left out.
pub mod Persisted
mod Examples
use isales_engine.CallSession.{CallSession, Event}
use isales_engine.Streaming.Types.{RefereeTrace}
use isales_engine.Prelude.{
  ◌>>=◌, if◌then◌else◌, nat_eq, text_eq, mem, Text, text, Dict, lookup, insert, ℕ, zero, suc, ◌+◌,
  ◌-◌, ◌/◌, Bool, true, false, Option, none, some, List, [], ◌∷◌, ◌++◌, map,
}

pub data Fate : Type 0 where
  committed rolled_back unanswered : Fate

-- One dict of `pipeline_trace_records`. `copied` has the values that the row takes as they stand.
pub record TraceDict : Type 0 where
  pub turn_id : Option ℕ
  pub ts_start : Option ℕ
  pub main_fallback_used : Option Bool
  pub referee_results : Option (List RefereeTrace)
  pub restructure_active : Option Bool
  pub copied : Dict Text Text

pub record PipelineTrace : Type 0 where
  pub call_record_id : ℕ
  pub turn_id : ℕ
  pub ts_start : ℕ
  pub main_fallback_used : Bool
  pub referee_results : List RefereeTrace
  pub restructure_active : Bool
  pub copied : List (Text × Option Text)

pub data RowStatus : Type 0 where
  init end_call : RowStatus

pub record CallRecord : Type 0 where
  pub lead_id : ℕ
  pub campaign_id : ℕ
  pub caller_id : Text
  pub status : RowStatus
  pub started_at : Option ℕ
  pub ended_at : Option ℕ
  pub duration : Option ℕ
  pub transcript : List Event
  pub transfer_status : Text
  pub transfer_reason : Option Text
  pub wrap_up_started_at : Option ℕ
  pub prompt_versions : Text
  pub extract_status : Option Text

pub record Database : Type 0 where
  pub call_records : Dict ℕ CallRecord
  pub pipeline_traces : List PipelineTrace
  pub transactions : ℕ  -- the number of transactions so far

-- The part of `CallSession` that the end of a call reads and writes.
pub record LiveCall : Type 0 where
  pub call_record_id : ℕ
  pub lead_id : ℕ
  pub campaign_id : ℕ
  pub caller_id : Text
  pub prompt_versions_snapshot : Text
  pub device_id : ℕ
  pub extractor_role_config_id : ℕ
  pub extractor_prompt_version_id : ℕ
  pub hangup_cause : Option Text
  pub transfer_status : Text
  pub transfer_reason : Option Text
  pub wrap_up_started_at_wallclock : Option ℕ
  pub pipeline_trace_records : List TraceDict
  pub session : CallSession

abbrev pub copied_names : List Text
copied_names =
    text "ts_end"
    ∷ text "user_input"
    ∷ text "main_reply_text"
    ∷ text "main_duration_ms"
    ∷ text "main_first_token_ms"
    ∷ text "main_first_sentence_ms"
    ∷ text "main_tokens_in"
    ∷ text "main_tokens_out"
    ∷ text "matched_rule"
    ∷ text "restructure_trigger"
    ∷ text "restructure_source_text"
    ∷ text "first_audio_ms"
    ∷ text "error"
    ∷ []

abbrev or_else {ℓ} : {A : Type ℓ} → Option A → A → A
or_else none d = d
or_else (some a) d = a

-- A dict with no `turn_id` raises.
unfoldable pub trace_row : ℕ → ℕ → TraceDict → Option PipelineTrace
unfolding lookup
trace_row call_record_id started_at d = do
  turn_id ← d.turn_id
  some (record {
    call_record_id = call_record_id;
    turn_id = turn_id;
    ts_start = or_else d.ts_start started_at;
    main_fallback_used = or_else d.main_fallback_used false;
    referee_results = or_else d.referee_results [];
    restructure_active = or_else d.restructure_active false;
    copied = map (λ name. (name, lookup name d.copied)) copied_names;
  })

unfoldable pub trace_rows : ℕ → ℕ → List TraceDict → Option (List PipelineTrace)
unfolding trace_row
trace_rows call_record_id started_at [] = some []
trace_rows call_record_id started_at (d ∷ ds) = do
  row ← trace_row call_record_id started_at d
  rows ← trace_rows call_record_id started_at ds
  some (row ∷ rows)

-- `max(0, int((ended_at - started_at).total_seconds()))`
unfoldable pub duration_of : ℕ → ℕ → ℕ
duration_of started_at ended_at = (ended_at - started_at) / 1_000_000

abbrev pub no_transfer_status : Text
no_transfer_status = text "none"

-- The values of the enumeration `TransferStatus` of isales_common are a parameter.
module _ (transfer_statuses : List Text) where
  unfoldable pub row_of : LiveCall → ℕ → ℕ → Option CallRecord → CallRecord
  unfolding duration_of
  row_of call started_at ended_at old =
      let fresh : CallRecord = record {
        lead_id = call.lead_id;
        campaign_id = call.campaign_id;
        caller_id = call.caller_id;
        status = init;
        started_at = none;
        ended_at = none;
        duration = none;
        transcript = [];
        transfer_status = no_transfer_status;
        transfer_reason = none;
        wrap_up_started_at = none;
        prompt_versions = call.prompt_versions_snapshot;
        extract_status = none;
      } in
      let found = or_else old fresh in
      record found {
        status = end_call;
        started_at = some started_at;
        ended_at = some ended_at;
        duration = some (duration_of started_at ended_at);
        transcript = call.session.full_transcript;
        transfer_status =
            if mem call.transfer_status transfer_statuses
            then call.transfer_status
            else no_transfer_status;
        transfer_reason = call.transfer_reason;
        wrap_up_started_at = elim call.wrap_up_started_at_wallclock [
          | none ↦ found.wrap_up_started_at
          | some at ↦ some at
        ];
        prompt_versions = call.prompt_versions_snapshot;
      }

  -- `_write_in_transaction` up to the commit
  unfoldable pub written : LiveCall → ℕ → ℕ → Database → Option Database
  unfolding row_of trace_rows lookup insert
  written call started_at ended_at db = do
    rows ← trace_rows call.call_record_id started_at call.pipeline_trace_records
    some (record db {
      call_records =
          insert call.call_record_id
            (row_of call started_at ended_at (lookup call.call_record_id db.call_records))
            db.call_records;
      pipeline_traces = db.pipeline_traces ++ rows;
    })

  module _ (fate : ℕ → Fate) where
    -- A transaction that would lead to a database: whether it was answered, and the database.
    unfoldable pub transact : Option Database → Database → Bool × Database
    transact none db = (false, record db { transactions = db.transactions + 1 })
    transact (some db') db = elim (fate db.transactions) [
      | committed ↦ (true, record db' { transactions = db.transactions + 1 })
      | rolled_back ↦ (false, record db { transactions = db.transactions + 1 })
      | unanswered ↦ (false, record db' { transactions = db.transactions + 1 })
    ]

    unfoldable pub persist_call_record : ℕ → LiveCall → ℕ → ℕ → Database → Bool × Database
    unfolding written transact
    persist_call_record zero call started_at ended_at db = (false, db)
    persist_call_record (suc retries) call started_at ended_at db =
        let (ok, db') = transact (written call started_at ended_at db) db in
        let rest = persist_call_record retries call started_at ended_at db' in
        if ok then (true, db') else rest
