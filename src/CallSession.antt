-- ===== src/CallSession.antt =====
-- isales_engine/call_session.py: the part of a call's session that records events and states.
-- The counters and asyncio handles that other components keep on it stand with those components.
-- `TranscriptEvent`, the schema of the shared library isales_common, is the parameter `admits`.
pub mod Mirror
mod Examples
use isales_engine.Prelude.{
  if◌then◌else◌, ◌==◌, nat_eq, text_eq, mem, Text, text, Dict, lookup, ℕ, Bool, not, ◌&&◌, Option,
  none, some, List, [], ◌∷◌, ◌++◌,
}

pub data CallState : Type 0 where
  init in_call transferring end_call : CallState

-- `CallStatus(…).value`
unfoldable pub state_value : CallState → Text
state_value init = text "init"
state_value in_call = text "in_call"
state_value transferring = text "transferring"
state_value end_call = text "end"

abbrev pub transcript_event_types : List Text
transcript_event_types =
    text "greeting"
    ∷ text "user_speech"
    ∷ text "ai_reply"
    ∷ text "interruption"
    ∷ text "filler"
    ∷ text "default_reply_used"
    ∷ text "silence_activation"
    ∷ text "transfer_initiated"
    ∷ text "transfer_marked"
    ∷ text "goal_achieved"
    ∷ text "wrap_up_started"
    ∷ text "wrap_up_completed"
    ∷ text "hangup"
    ∷ text "state_error"
    ∷ text "state_warning"
    ∷ []

abbrev pub dialog_event_types : List Text
dialog_event_types = text "greeting" ∷ text "user_speech" ∷ text "ai_reply" ∷ []

unfoldable pub is_known : Text → Bool
is_known event_type = mem event_type transcript_event_types

unfoldable pub is_dialog : Text → Bool
is_dialog event_type = mem event_type dialog_event_types

pub data Role : Type 0 where
  assistant user : Role

pub record DialogTurn : Type 0 where
  pub role : Role
  pub text : Text
  pub ts_ms : ℕ

-- An event: its type, its time since the call's start, and its further fields, as texts.
pub record Event : Type 0 where
  pub kind : Text
  pub ts : ℕ
  pub fields : Dict Text Text

pub record CallSession : Type 0 where
  pub state : CallState
  pub previous_state : Option CallState
  pub state_history : List (CallState × CallState × Option Text)
  pub dialog_history : List DialogTurn
  pub full_transcript : List Event

-- The fields' defaults.
unfoldable pub new : CallSession
new = record {
  state = init;
  previous_state = none;
  state_history = [];
  dialog_history = [];
  full_transcript = [];
}

pub data Recorded : Type 0 where
  recorded : CallSession → Recorded
  value_error schema_error : CallSession → Recorded

-- `str(fields.get("text", ""))`
spoken_text : Dict Text Text → Text
unfolding lookup
spoken_text fields = elim (lookup (text "text") fields) [ none ↦ [] | some said ↦ said ]

unfoldable pub turn_of : Event → DialogTurn
unfolding spoken_text
turn_of event = record {
  role = if event.kind == text "user_speech" then user else assistant;
  text = spoken_text event.fields;
  ts_ms = event.ts;
}

-- `if event_type in DIALOG_EVENT_TYPES:`
unfoldable pub mirror : Event → List DialogTurn → List DialogTurn
unfolding turn_of
mirror event turns = if is_dialog event.kind then turns ++ turn_of event ∷ [] else turns

module _ (admits : Event → Bool) (strict : Bool) where
  -- `ts_ms` is the time since the call's start in milliseconds. Outside strict mode an event that
  -- the schema does not admit is logged and recorded all the same.
  unfoldable pub append_event : Text → ℕ → Dict Text Text → CallSession → Recorded
  append_event event_type ts_ms fields session =
      let event : Event = record { kind = event_type; ts = ts_ms; fields = fields } in
      if is_known event_type
      then (if not (admits event) && strict
          then schema_error session
          else recorded (record session {
            full_transcript = session.full_transcript ++ event ∷ [];
            dialog_history = mirror event session.dialog_history;
          }))
      else value_error session
