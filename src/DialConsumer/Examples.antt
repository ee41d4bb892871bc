-- ===== src/DialConsumer/Examples.antt =====
-- A message that becomes a call, one that does not, and the theorems on
-- isales_engine/dial_consumer.py and the end of isales_engine/call_lifecycle.py at them.
use isales_engine.DialConsumer.{
  Inlet, version, malformed, handle_dial, new_call, Popped, timed_out, popped, no_shutdown,
  during_reserve, dial_loop, RunnerEnd, runner_with_finalize,
}
use isales_engine.DialConsumer.Handling.{IsKnown}
use isales_engine.DialConsumer.Intake.{
  IsAccounted, count_popped, count_exposed, dial_loop-accounts, runner_with_finalize-restores,
}
use isales_engine.CallLifecycle.Finalize.{World, Services, finalize_session}
use isales_engine.CallLifecycle.Finalize.Settled.{IsSettled, finalize_session-IsSettled}
use isales_engine.CallLifecycle.{answered}
use isales_engine.TranscriptRecorder as Recorder
use isales_engine.TranscriptRecorder.{Database, CallRecord, LiveCall, transact}
use isales_engine.Prelude.Int.{pos}
use isales_engine.Prelude.{
  if◌then◌else◌, length, nat_eq, text_eq, ◌==◌, text, Dict, lookup, ℕ, suc, ◌≤◌, max, ◌≡◌, refl,
  true, none, some, List, [], ◌∷◌, arith,
}

abbrev services : Services
services = record {
  hangup_causes = text "user_hangup" ∷ text "normal_clearing" ∷ [];
  normal_clearing = text "normal_clearing";
  transfer_statuses = [];
  extract_queue = text "isales:extract";
  call_ended_queue = text "engine:call_ended";
  dlq = text "engine:dlq";
  redis_fate = λ n. answered;
  db_fate = λ n. if n == 1 then Recorder.rolled_back else Recorder.committed;
}

-- One above the largest id.
abbrev above : Dict ℕ CallRecord → ℕ
above [] = 0
above ((i, row) ∷ rows) = max (suc i) (above rows)

absent_above : (n : ℕ) (rows : Dict ℕ CallRecord) → above rows ≤ n → lookup n rows ≡ none
unfolding lookup
absent_above n [] h = refl
absent_above n ((i, row) ∷ rows) h = ground (arith, absent_above n rows)

abbrev inlet : Inlet
inlet = record {
  loads = λ raw. if raw == text "dial" then version (pos 1) else malformed;
  validate = λ raw. some (record {
    lead_id = 1;
    campaign_id = 2;
    caller_id = [];
    device_id = 0;
    prompt_versions = [];
  });
  new_id = λ db. above db.call_records;
}

fresh : (db : Database) → lookup (inlet.new_id db) db.call_records ≡ none
fresh db = absent_above (above db.call_records) db.call_records (omega arith)

abbrev start : World
start = record {
  redis = record { counter = pos 1; pushed = []; commands = 0 };
  db = record { call_records = []; pipeline_traces = []; transactions = 0 };
  manager = record { sessions = [] };
}

start-IsKnown : IsKnown start.db start.manager
unfolding lookup
start-IsKnown i h = refl

-- The second message is malformed, the row of the third is rolled back, and a shutdown cancels the
-- reservation of the fourth.
abbrev polls : List Popped
polls =
    popped (text "dial") 10 no_shutdown
    ∷ popped (text "?") 20 no_shutdown
    ∷ timed_out
    ∷ popped (text "dial") 30 no_shutdown
    ∷ popped (text "dial") 40 (during_reserve true)
    ∷ []

dials : length (dial_loop services inlet polls start).1.manager.sessions ≡ 1
unfolding dial_loop
dials = refl

dial_loop-accounts_example :
    IsAccounted services inlet fresh start
      (dial_loop services inlet polls start).1
      (count_popped services inlet fresh polls start)
      (count_exposed services inlet fresh polls start)
dial_loop-accounts_example =
    dial_loop-accounts services inlet fresh polls start (λ n. refl) start-IsKnown

one_exposed : count_exposed services inlet fresh polls start ≡ 1
unfolding handle_dial
one_exposed = refl

abbrev call : LiveCall
call =
    new_call
      (record { lead_id = 1; campaign_id = 2; caller_id = []; device_id = 0; prompt_versions = [] })
      0

finalize_session-IsSettled_example :
    IsSettled services call start (finalize_session services call 10 20 start)
finalize_session-IsSettled_example = finalize_session-IsSettled services call 10 20 start

runner_with_finalize-restores_example :
    (runner_with_finalize services RunnerEnd.returned true
      (record call { hangup_cause = some (text "user_hangup") })
      10
      20
      (handle_dial services inlet (text "dial") 10 no_shutdown start).1).1.manager.sessions
    ≡ []
unfolding handle_dial new_call
runner_with_finalize-restores_example =
    runner_with_finalize-restores services inlet fresh (text "dial") 10 10 20 no_shutdown start
      RunnerEnd.returned true call (record call { hangup_cause = some (text "user_hangup") })
      start-IsKnown refl refl
