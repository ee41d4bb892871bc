-- ===== src/DialConsumer.antt =====
-- isales_engine/dial_consumer.py: dial requests become calls. `json.loads` and the validation of a
-- request are parameters, as is the id that the database gives a new row.
pub mod Handling
pub mod Intake
mod Examples
use isales_engine.CallLifecycle.Finalize.{World, Services, Payload, dead_letter, finalize_session}
use isales_engine.CallLifecycle.{command}
use isales_engine.TranscriptRecorder.{
  Database, CallRecord, RowStatus, LiveCall, TraceDict, transact, no_transfer_status,
}
use isales_engine.TranscriptRecorder as Recorder
use isales_engine.CallSession as Session
use isales_engine.SessionManager.{register}
use isales_engine.Prelude.Int.{ℤ, pos, negsuc}
use isales_engine.Prelude.{
  if◌then◌else◌, nat_eq, text_eq, ◌==◌, Text, text, insert, ℕ, Bool, true, false, Option, none,
  some, List, [], ◌∷◌,
}

-- What `json.loads` gives for a message: a ValueError or TypeError, another exception, such as the
-- RecursionError of a deep nesting, a value that is no dict, or a dict with what it has under
-- `schema_version`.
pub data Loaded : Type 0 where
  malformed unloadable no_dict versionless other_version : Loaded
  version : ℤ → Loaded

-- The version if there is one, or an exception.
pub data Peeked : Type 0 where
  peeked : Option ℤ → Peeked
  peek_raised : Peeked

unfoldable pub peek_schema_version : Loaded → Peeked
peek_schema_version (version sv) = peeked (some sv)
peek_schema_version malformed = peeked none
peek_schema_version unloadable = peek_raised
peek_schema_version no_dict = peeked none
peek_schema_version versionless = peeked none
peek_schema_version other_version = peeked none

-- `sv in SUPPORTED_SCHEMA_VERSIONS`
unfoldable pub is_supported : Option ℤ → Bool
is_supported none = false
is_supported (some (pos n)) = n == 1
is_supported (some (negsuc n)) = false

pub record DialRequest : Type 0 where
  pub lead_id : ℕ
  pub campaign_id : ℕ
  pub caller_id : Text
  pub device_id : ℕ
  pub prompt_versions : Text

pub record Inlet : Type 0 where
  pub loads : Text → Loaded
  pub validate : Text → Option DialRequest
  pub new_id : Database → ℕ

-- How the handling of a message ends.
pub data Handled : Type 0 where
  spawned : LiveCall → Handled
  dead_lettered raised handling_cancelled : Handled

-- A shutdown while a message is handled cancels one of the awaits: that of the reservation or that
-- of the push to the dead letters, each before or after it took effect. It has no effect on a path
-- that does not await the same.
pub data Shutdown : Type 0 where
  no_shutdown : Shutdown
  during_reserve during_push : Bool → Shutdown

unfoldable pub reserved_row : DialRequest → ℕ → CallRecord
reserved_row request started_at = record {
  lead_id = request.lead_id;
  campaign_id = request.campaign_id;
  caller_id = request.caller_id;
  status = RowStatus.init;
  started_at = some started_at;
  ended_at = none;
  duration = none;
  transcript = [];
  transfer_status = no_transfer_status;
  transfer_reason = none;
  wrap_up_started_at = none;
  prompt_versions = request.prompt_versions;
  extract_status = none;
}

unfoldable pub new_call : DialRequest → ℕ → LiveCall
unfolding Session.new
new_call request call_record_id = record {
  call_record_id = call_record_id;
  lead_id = request.lead_id;
  campaign_id = request.campaign_id;
  caller_id = request.caller_id;
  prompt_versions_snapshot = request.prompt_versions;
  device_id = request.device_id;
  extractor_role_config_id = 0;
  extractor_prompt_version_id = 0;
  hangup_cause = none;
  transfer_status = no_transfer_status;
  transfer_reason = none;
  wrap_up_started_at_wallclock = none;
  pipeline_trace_records = [];
  session = Session.new;
}

-- A turn of `dial_loop`: nothing within a second, an exception, a cancellation, or a message with the
-- time at which it is handled and the shutdown that may come meanwhile.
pub data Popped : Type 0 where
  timed_out popping_raised popping_cancelled : Popped
  popped : Text → ℕ → Shutdown → Popped

-- A loop polls on, or has left with the cancellation.
pub data LoopEnd : Type 0 where
  polling shut_down : LoopEnd

-- How the runner of a session ends.
pub data RunnerEnd : Type 0 where
  returned runner_raised cancelled : RunnerEnd

unfoldable pub given_cause : RunnerEnd → Option Text → Option Text
given_cause returned cause = cause
given_cause runner_raised none = some (text "no_progress_timeout")
given_cause runner_raised (some cause) = some cause
given_cause cancelled none = some (text "manual_hangup")
given_cause cancelled (some cause) = some cause

module _ (services : Services) (inlet : Inlet) where
  -- `redis.lpush(settings.engine_dlq, raw)`, whose exception leaves `handle_dial`
  unfoldable pub push_dead : Text → World → Handled × World
  unfolding command
  push_dead raw w =
      let (ok, redis) =
        command services.redis_fate
          (λ r. record r { pushed = (services.dlq, dead_letter raw) ∷ r.pushed }) w.redis in
      (if ok then dead_lettered else raised, record w { redis = redis })

  unfoldable pub dead_lettering : Text → Shutdown → World → Handled × World
  unfolding push_dead
  dead_lettering raw (during_push took_effect) w = (
    handling_cancelled,
    (if took_effect
        then record w {
          redis = record w.redis { pushed = (services.dlq, dead_letter raw) ∷ w.redis.pushed };
        }
        else w),
  )
  dead_lettering raw (during_reserve took_effect) w = push_dead raw w
  dead_lettering raw no_shutdown w = push_dead raw w

  -- `reserve_call_record`
  unfoldable pub reserve : DialRequest → ℕ → World → Bool × World
  unfolding transact reserved_row insert
  reserve request started_at w =
      let (ok, db) =
        transact services.transfer_statuses services.db_fate
          (some (record w.db {
            call_records =
                insert (inlet.new_id w.db) (reserved_row request started_at) w.db.call_records;
          }))
          w.db in
      (ok, record w { db = db })

  unfoldable pub reserved : Text → LiveCall → Shutdown → Bool × World → Handled × World
  unfolding dead_lettering register
  reserved raw call stop (ok, w) =
      if ok
      then (
        spawned call,
        record w { manager = register (λ (c : LiveCall). c.call_record_id) call w.manager },
      )
      else dead_lettering raw stop w

  unfoldable pub accepted : Text → DialRequest → ℕ → Shutdown → World → Handled × World
  unfolding reserve reserved new_call reserved_row insert
  accepted raw request started_at (during_reserve took_effect) w = (
    handling_cancelled,
    (if took_effect
        then record w {
          db = record w.db {
            call_records =
                insert (inlet.new_id w.db) (reserved_row request started_at) w.db.call_records;
          };
        }
        else w),
  )
  accepted raw request started_at no_shutdown w =
      reserved raw (new_call request (inlet.new_id w.db)) no_shutdown (reserve request started_at w)
  accepted raw request started_at (during_push took_effect) w =
      reserved raw (new_call request (inlet.new_id w.db)) (during_push took_effect)
        (reserve request started_at w)

  unfoldable pub validated : Text → Option DialRequest → ℕ → Shutdown → World → Handled × World
  unfolding accepted dead_lettering
  validated raw none started_at stop w = dead_lettering raw stop w
  validated raw (some request) started_at stop w = accepted raw request started_at stop w

  unfoldable pub versioned : Peeked → Text → ℕ → Shutdown → World → Handled × World
  unfolding validated dead_lettering is_supported
  versioned peek_raised raw started_at stop w = (raised, w)
  versioned (peeked sv) raw started_at stop w =
      if is_supported sv
      then validated raw (inlet.validate raw) started_at stop w
      else dead_lettering raw stop w

  unfoldable pub handle_dial : Text → ℕ → Shutdown → World → Handled × World
  unfolding versioned peek_schema_version
  handle_dial raw started_at stop w =
      versioned (peek_schema_version (inlet.loads raw)) raw started_at stop w

  -- An exception of the handling is only logged, a cancellation leaves the loop.
  unfoldable pub handled : Handled → (World → LoopEnd × World) → World → LoopEnd × World
  handled (spawned call) rest w = rest w
  handled dead_lettered rest w = rest w
  handled raised rest w = rest w
  handled handling_cancelled rest w = (shut_down, w)

  unfoldable pub dial_loop : List Popped → World → LoopEnd × World
  unfolding handle_dial handled
  dial_loop [] w = (polling, w)
  dial_loop (timed_out ∷ rest) w = dial_loop rest w
  dial_loop (popping_raised ∷ rest) w = dial_loop rest w
  dial_loop (popping_cancelled ∷ rest) w = (shut_down, w)
  dial_loop (popped raw at stop ∷ rest) w =
      let (h, w') = handle_dial raw at stop w in handled h (dial_loop rest) w'

module _ (services : Services) where
  -- `_runner_with_finalize`, from the call as the runner leaves it, and whether a cancellation comes
  -- while it awaits the finalization: whether a cancellation is raised. `finalize_session` runs in
  -- every case, and to its end, since it is shielded.
  unfoldable pub runner_with_finalize : RunnerEnd → Bool → LiveCall → ℕ → ℕ → World → Bool × World
  unfolding given_cause finalize_session
  runner_with_finalize end interrupted call started_at ended_at w =
      let ended : LiveCall = record call { hangup_cause = given_cause end call.hangup_cause } in
      (
        (if interrupted
            then true
            else elim end [ cancelled ↦ true | returned ↦ false | runner_raised ↦ false ]),
        finalize_session services ended started_at ended_at w,
      )
