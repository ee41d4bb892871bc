-- ===== src/TranscriptRecorder/Examples.antt =====
-- A call whose first transaction is rolled back, and the theorem on
-- isales_engine/transcript_recorder.py at it.
use isales_engine.TranscriptRecorder.{
  Fate, committed, rolled_back, Database, LiveCall, TraceDict, persist_call_record,
}
use isales_engine.TranscriptRecorder.Persisted.{IsPersisted, persist_call_record-IsPersisted}
use isales_engine.CallSession.{new}
use isales_engine.Prelude.{
  if◌then◌else◌, length, nat_eq, text_eq, ◌==◌, text, ℕ, ◌≡◌, refl, true, none, some, [], ◌∷◌,
}

abbrev trace : TraceDict
trace = record {
  turn_id = some 1;
  ts_start = none;
  main_fallback_used = none;
  referee_results = none;
  restructure_active = some true;
  copied = (text "user_input", text "你好") ∷ [];
}

abbrev live : LiveCall
live = record {
  call_record_id = 5;
  lead_id = 1;
  campaign_id = 2;
  caller_id = text "400";
  prompt_versions_snapshot = [];
  device_id = 0;
  extractor_role_config_id = 9;
  extractor_prompt_version_id = 1;
  hangup_cause = none;
  transfer_status = text "none";
  transfer_reason = none;
  wrap_up_started_at_wallclock = none;
  pipeline_trace_records = trace ∷ [];
  session = new;
}

abbrev empty : Database
empty = record { call_records = []; pipeline_traces = []; transactions = 0 }

abbrev second_time : ℕ → Fate
second_time n = if n == 0 then rolled_back else committed

persists :
    length (persist_call_record [] second_time 3 live 1_000_000 4_500_000 empty).1.pipeline_traces
    ≡ 1
unfolding persist_call_record
persists = refl

-- With no `turn_id` nothing is ever written.
keeps_failing :
    (persist_call_record [] second_time 3
      (record live { pipeline_trace_records = record trace { turn_id = none } ∷ [] })
      1_000_000
      4_500_000
      empty).1
    ≡ record empty { transactions = 3 }
unfolding persist_call_record
keeps_failing = refl

persist_call_record-IsPersisted_example :
    IsPersisted live 1_000_000 4_500_000 3 empty
      (persist_call_record [] second_time 3 live 1_000_000 4_500_000 empty).0
      (persist_call_record [] second_time 3 live 1_000_000 4_500_000 empty).1
persist_call_record-IsPersisted_example =
    persist_call_record-IsPersisted [] second_time live 1_000_000 4_500_000 3 empty
