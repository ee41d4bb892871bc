-- ===== src/StateMachine.antt =====
-- isales_engine/state_machine.py: the writer of a session's state. The log lines are left out.
pub mod History
mod Examples
use isales_engine.CallSession.{
  CallState, init, in_call, transferring, end_call, state_value, CallSession, Event, Recorded,
  recorded, value_error, schema_error, append_event,
}
use isales_engine.Prelude.{
  if◌then◌else◌, Eq, ◌==◌, nat_eq, text_eq, mem, Text, text, Dict, ℕ, ◌≡◌, refl, ◌↔◌, Bool, true,
  false, Option, none, some, List, [], ◌∷◌, ◌++◌,
}

abbrev pub states_equal : CallState → CallState → Bool
states_equal init b = elim b [ init ↦ true | _ ↦ false ]
states_equal in_call b = elim b [ in_call ↦ true | _ ↦ false ]
states_equal transferring b = elim b [ transferring ↦ true | _ ↦ false ]
states_equal end_call b = elim b [ end_call ↦ true | _ ↦ false ]

pub states_equal_iff : (a b : CallState) → (states_equal a b ≡ true) ↔ (a ≡ b)
states_equal_iff init init = (λ h. refl, λ h. refl)
states_equal_iff init in_call = (λ h. cc, λ h. cc)
states_equal_iff init transferring = (λ h. cc, λ h. cc)
states_equal_iff init end_call = (λ h. cc, λ h. cc)
states_equal_iff in_call init = (λ h. cc, λ h. cc)
states_equal_iff in_call in_call = (λ h. refl, λ h. refl)
states_equal_iff in_call transferring = (λ h. cc, λ h. cc)
states_equal_iff in_call end_call = (λ h. cc, λ h. cc)
states_equal_iff transferring init = (λ h. cc, λ h. cc)
states_equal_iff transferring in_call = (λ h. cc, λ h. cc)
states_equal_iff transferring transferring = (λ h. refl, λ h. refl)
states_equal_iff transferring end_call = (λ h. cc, λ h. cc)
states_equal_iff end_call init = (λ h. cc, λ h. cc)
states_equal_iff end_call in_call = (λ h. cc, λ h. cc)
states_equal_iff end_call transferring = (λ h. cc, λ h. cc)
states_equal_iff end_call end_call = (λ h. refl, λ h. refl)

instance abbrev pub state_eq : Eq CallState
state_eq = record { beq = states_equal; beq_iff = states_equal_iff }

-- `LEGAL_TRANSITIONS`
unfoldable pub legal_transitions : CallState → List CallState
legal_transitions init = in_call ∷ end_call ∷ []
legal_transitions in_call = transferring ∷ end_call ∷ []
legal_transitions transferring = end_call ∷ []
legal_transitions end_call = []

-- `reason or "transition"`
unfoldable pub attempted : Option Text → Text
attempted none = text "transition"
attempted (some []) = text "transition"
attempted (some (c ∷ cs)) = c ∷ cs

-- the three assignments at the end
unfoldable pub advance : CallState → CallState → Option Text → CallSession → CallSession
advance current new_state reason session = record session {
  previous_state = some current;
  state = new_state;
  state_history = session.state_history ++ (current, new_state, reason) ∷ [];
}

unfoldable pub warning_fields : CallState → CallState → Option Text → Dict Text Text
unfolding attempted
warning_fields current new_state reason =
    (text "attempted", attempted reason)
    ∷ (text "from_state", state_value current)
    ∷ (text "to_state", state_value new_state)
    ∷ []

-- An error of `append_event` leaves `transition_to` before the assignments.
unfoldable pub after_warning : (CallSession → CallSession) → Recorded → Recorded
after_warning rest (recorded session) = recorded (rest session)
after_warning rest (value_error session) = value_error session
after_warning rest (schema_error session) = schema_error session

module _ (admits : Event → Bool) (strict : Bool) where
  -- `force` has no effect.
  unfoldable pub transition_to : CallState → Option Text → Bool → ℕ → CallSession → Recorded
  unfolding legal_transitions advance warning_fields after_warning
  transition_to new_state reason force ts_ms session =
      let current : CallState = session.state in
      if new_state == current
      then recorded session
      else if mem new_state (legal_transitions current)
      then recorded (advance current new_state reason session)
      else after_warning (advance current new_state reason) (
          append_event admits strict (text "state_warning") ts_ms
            (warning_fields current new_state reason) session)
