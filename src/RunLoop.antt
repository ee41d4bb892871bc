-- ===== src/RunLoop.antt =====
-- isales_engine/run_loop.py: the session of one call, from the dial to its end. This file holds what
-- the run loop keeps on the session, the surroundings it runs in, and the form of its coroutines.
-- A coroutine is a function of the call that ends in a result, an exception, a cancellation of the
-- main task, or in waiting for more input; what it wrote before stays written. Published messages,
-- the ambient bed, the prewarmed connections and the log lines are left out.
pub mod Lifecycle
pub mod Hoare
pub mod Settles
pub mod Laws
pub mod Monitor
pub mod Playing
pub mod Selection
pub mod Listening
pub mod Turn
pub mod Gate
pub mod Session
use isales_engine.CallSession.{
  CallSession, Event, Recorded, recorded, value_error, schema_error, CallState, append_event,
}
use isales_engine.StateMachine.{transition_to}
use isales_engine.Pipeline.Decider.{RoutingRule}
use isales_engine.Streaming.Types.{RefereeResult}
use isales_engine.Realtime.InterruptionRules.{Regex, Rule}
use isales_engine.Realtime.Silence.{SilenceConfig}
use isales_engine.Realtime.WrapUp.{WrapUpConfig}
use isales_engine.Realtime.Transfer.{TransferConfig}
use isales_engine.Prelude.Int.{ℤ}
use isales_engine.Prelude.{
  length, nat_eq, text_eq, Text, Dict, ℕ, Bool, false, Option, none, some, List, [],
}

-- The causes that the run loop records, members of the shared library's `HangupCause`.
pub data HangupCause : Type 0 where
  no_answer user_hangup silence_max_reached no_progress_timeout : HangupCause
  referee_hangup marked_for_handoff wrap_up_completed manual_hangup : HangupCause

-- `current_speaking_task`: a playback that the monitor may cancel, and whether it has.
pub data Speaking : Type 0 where
  playing cancel_requested : Speaking

-- One row of `pipeline_trace_records`, less its timings and token counts.
pub record Trace : Type 0 where
  pub user_input : Text
  pub main_reply_text : Text
  pub referee_results : List RefereeResult
  pub matched_rule : Option RoutingRule
  pub restructure_source_text : Option Text
  pub restructure_trigger : Option Text
  pub selected_route_id : Option Text
  pub persona_candidates : Option (List Text)

-- The fields of `CallSession` that the run loop reads and writes, the flag that it keeps on
-- the configuration, whether the monitors run, and the texts handed to the telephony so far.
pub record Call : Type 0 where
  pub session : CallSession
  pub hangup_cause : Option HangupCause
  pub transfer_reason : Option Text  -- `transfer_status` is "marked for handoff" with it
  pub in_wrap_up : Bool
  pub wrap_up_round_count : ℕ
  pub wrap_up_started_at : Option ℕ
  pub silence_activation_count : ℕ
  pub consecutive_interruption_count : ℕ
  pub consecutive_restructure_count : ℕ
  pub interrupt_remaining_text : Option Text
  pub interruption_signaled : Bool
  pub in_processing_turn : Bool
  pub current_speaking_task : Option Speaking
  pub current_user_speech_started_ms : Option ℕ
  pub current_turn_id : ℕ
  pub short_reply_active : Bool
  pub pipeline_trace_records : List Trace
  pub total_tokens_in : ℕ
  pub total_tokens_out : ℕ
  pub monitoring : Bool
  pub spoken : List Text

-- A fresh session's call.
unfoldable pub fresh : CallSession → Call
fresh session = record {
  session = session;
  hangup_cause = none;
  transfer_reason = none;
  in_wrap_up = false;
  wrap_up_round_count = 0;
  wrap_up_started_at = none;
  silence_activation_count = 0;
  consecutive_interruption_count = 0;
  consecutive_restructure_count = 0;
  interrupt_remaining_text = none;
  interruption_signaled = false;
  in_processing_turn = false;
  current_speaking_task = none;
  current_user_speech_started_ms = none;
  current_turn_id = 0;
  short_reply_active = false;
  pipeline_trace_records = [];
  total_tokens_in = 0;
  total_tokens_out = 0;
  monitoring = false;
  spoken = [];
}

-- What the recognizer delivers while the run loop awaits something else: a partial with the
-- monotonic milliseconds at which it is read, or the final that closes an utterance.
pub data Heard : Type 0 where
  partial : Text → ℕ → Heard
  final : Heard

-- How an awaited operation ends. `stopped` is a manual hangup, which cancels the main task; a
-- playback swallows it.
pub data Ending : Type 0 where
  finished failed stopped : Ending

-- What an awaited task with a time limit gives.
pub data Awaited (A : Type 0) : Type 0 where
  done : A → Awaited A
  timed_out raised : Awaited A

-- One playback: what is heard during it, and how it ends if nothing cancels it.
pub record Playback : Type 0 where
  pub heard : List Heard
  pub ending : Ending

-- The surroundings. `strict` is off, as it is in production: `append_event` only logs what the
-- schema does not admit. `clock` gives the time of the transcript's n-th event, and `playback` the
-- n-th playback of the call.
pub record Surroundings : Type 1 where
  pub admits : Event → Bool
  pub clock : ℕ → ℕ
  pub digits : ℕ → Text  -- `str`
  pub cause_value : HangupCause → Text
  pub playback : ℕ → Playback
  pub re : Regex

pub data ToolConfig : Type 0 where
  not_a_dict : ToolConfig
  tool_dict : Option Text → Option Text → ToolConfig  -- its `type` and its `closing_phrase`

pub record Persona : Type 0 where
  pub label : Text
  pub role_config_id : ℕ

-- The part of `PipelineConfig` that the run loop reads; `restructure` is its role's id.
pub record PipelineConfig : Type 0 where
  pub referee_labels : List Text
  pub routing_rules : List RoutingRule
  pub tools : Dict Text ToolConfig
  pub personas : List Persona
  pub persona_fanout_cap : ℤ
  pub referee_fail_open_route : Text
  pub main_role_config_id : ℕ
  pub restructure : Option ℕ
  pub auto_restructure_on_interrupt : Bool
  pub restructure_gate_category : Text
  pub max_continuous_restructure : ℕ
  pub default_replies : List Text

pub record Config (Pattern Number : Type 0) : Type 0 where
  pub pipeline : PipelineConfig
  pub silence : SilenceConfig
  pub wrap_up : WrapUpConfig
  pub transfer : TransferConfig Number
  pub interruption_rule : Rule Pattern
  pub interruption_whitelist : List Text
  pub max_continuous_interruptions : ℕ
  pub listen_only_strategy : Bool

pub data Outcome (A : Type 0) : Type 0 where
  returned : A → Outcome A
  threw cancelled waiting : Outcome A

abbrev pub Action : Type 0 → Type 0
Action A = Call → Outcome A × Call

abbrev pub Done : Type 0
Done = Unit {0}

unfoldable pub pure : {A : Type 0} → A → Action A
pure a c = (returned a, c)

unfoldable pub throw : {A : Type 0} → Action A
throw c = (threw, c)

unfoldable pub wait : {A : Type 0} → Action A
wait c = (waiting, c)

unfoldable pub gets : {A : Type 0} → (Call → A) → Action A
gets f c = (returned (f c), c)

unfoldable pub modify : (Call → Call) → Action Done
modify f c = (returned tt, f c)

abbrev pub carry_on : {A B : Type 0} → Outcome A → (A → Action B) → Action B
carry_on (returned a) f c = f a c
carry_on threw f c = (threw, c)
carry_on cancelled f c = (cancelled, c)
carry_on waiting f c = (waiting, c)

infixl 5 ◌>>=◌ ◌>>◌
unfoldable pub ◌>>=◌ : {A B : Type 0} → Action A → (A → Action B) → Action B
m >>= f = λ c. let (r, c') = m c in carry_on r f c'

abbrev pub ◌>>◌ : {A B : Type 0} → Action A → Action B → Action B
m >> k = m >>= λ _. k

-- `session.append_event` and `sm.transition_to`: the session is written in place.
unfoldable pub write : Recorded → Action Done
write (recorded s) c = (returned tt, record c { session = s })
write (value_error s) c = (threw, record c { session = s })
write (schema_error s) c = (threw, record c { session = s })

module _ (env : Surroundings) where
  unfoldable pub emit : Text → Dict Text Text → Action Done
  unfolding write
  emit kind fields c =
      write
        (append_event env.admits false kind (env.clock (length c.session.full_transcript)) fields
          c.session)
        c

  unfoldable pub go_to : CallState → Text → Action Done
  unfolding write
  go_to new_state reason c =
      write
        (transition_to env.admits false new_state (some reason) false
          (env.clock (length c.session.full_transcript)) c.session)
        c

-- `_subscribe_control_bridges`, `_terminate`: a manual hangup or a transfer from the control plane
-- records its cause and cancels the main task.
unfoldable pub terminate : {A : Type 0} → Action A
terminate c = (cancelled, record c { hangup_cause = some manual_hangup })
