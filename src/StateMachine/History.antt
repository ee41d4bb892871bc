-- ===== src/StateMachine/History.antt =====
-- The history of the states, over any run of requests.
use isales_engine.CallSession.{
  CallState, init, CallSession, Event, recorded, schema_error, append_event, new, is_known, mirror,
  is_dialog,
}
use isales_engine.CallSession.Mirror.{left}
use isales_engine.StateMachine.{
  transition_to, advance, legal_transitions, after_warning, states_equal_iff, state_eq,
  warning_fields,
}
use isales_engine.Prelude.{
  if◌then◌else◌, Bool-cases, length, keep, length-append, keep-append, ◌==◌, nat_eq, text_eq,
  ==_refl, ==-cases, mem, Text, text, Dict, ℕ, ◌+◌, ◌≡◌, refl, sym, ap, ◌∙◌, ◌≢◌, ◌⊎◌, inl, inr,
  Bool, true, false, not, ◌&&◌, Option, some, List, [], ◌∷◌, ◌++◌, arith,
}

abbrev pub Step : Type 0
Step = CallState × CallState × Option Text

-- A list of steps that leads from one state to another, each step from the state where the one
-- before it ended to a different state.
abbrev pub Chain : CallState → List Step → CallState → Type 0
Chain a [] b = a ≡ b
Chain a ((from, to, reason) ∷ steps) b = (a ≡ from) × (from ≢ to) × Chain to steps b

Chain-append :
    (a b c : CallState) (steps : List Step) (reason : Option Text)
    → Chain a steps b
    → b ≢ c
    → Chain a (steps ++ (b, c, reason) ∷ []) c
Chain-append a b c [] reason h ne = (h, ne, refl)
Chain-append a b c ((from, to, why) ∷ steps) reason h ne =
    (h.0, h.1, Chain-append to b c steps reason h.2 ne)

abbrev pub is_illegal : Step → Bool
is_illegal (from, to, reason) = not (mem to (legal_transitions from))

abbrev pub is_warning : Event → Bool
is_warning event = event.kind == text "state_warning"

-- The state history leads from the initial state to the present one, `previous_state` is the state
-- before the last step, and the transcript has a warning for each step that is not legal.
pub record IsTraced (s : CallSession) : Type 0 where
  pub chain : Chain init s.state_history s.state
  pub warned : length (keep is_warning s.full_transcript) ≡ length (keep is_illegal s.state_history)

is_warning-append :
    (ts_ms : ℕ) (fields : Dict Text Text) (events : List Event)
    → length (
        keep is_warning
          (events ++ record { kind = text "state_warning"; ts = ts_ms; fields = fields } ∷ []))
      ≡ length (keep is_warning events) + 1
is_warning-append ts_ms fields events = rw keep-append (length-append (keep is_warning events) _)

is_illegal-append :
    (step : Step) (steps : List Step)
    → length (keep is_illegal (steps ++ step ∷ []))
      ≡ length (keep is_illegal steps) + (if is_illegal step then 1 else 0)
is_illegal-append step steps = elim (Bool-cases (is_illegal step)) [
  | inl illegal ↦ rw (keep-append, illegal) (length-append (keep is_illegal steps) _)
  | inr legal ↦ rw (keep-append, legal) (length-append (keep is_illegal steps) _)
]

-- The session with one more event that warns of a step.
abbrev with_warning : ℕ → Dict Text Text → CallSession → CallSession
with_warning ts_ms fields s = record s {
  full_transcript =
      s.full_transcript ++ record { kind = text "state_warning"; ts = ts_ms; fields = fields } ∷ [];
}

append_event-warning :
    (admits : Event → Bool) (strict : Bool) (ts_ms : ℕ) (fields : Dict Text Text) (s : CallSession)
    → (append_event admits strict (text "state_warning") ts_ms fields s
        ≡ recorded (with_warning ts_ms fields s))
      ⊎ ((append_event admits strict (text "state_warning") ts_ms fields s ≡ schema_error s)
          × (strict ≡ true))
unfolding append_event is_known mirror is_dialog
append_event-warning admits strict ts_ms fields s =
    elim (Bool-cases (
      not (admits record { kind = text "state_warning"; ts = ts_ms; fields = fields }) && strict)) [
        | inl refused ↦ inr (rw refused refl, ground arith)
        | inr taken ↦ inl (rw taken refl)
      ]

module _ (admits : Event → Bool) where
  -- With the schema's check not strict, a request always returns. If it asks for the present state
  -- nothing changes; else the session is in the requested state, whether or not the step is
  -- listed, the state before is `previous_state`, and the step is the last one of the history.
  pub transition_to-completes :
      (new_state : CallState) (reason : Option Text) (force : Bool) (ts_ms : ℕ) (s : CallSession)
      → (t : CallSession) × (transition_to admits false new_state reason force ts_ms s ≡ recorded t)
        × (t.state ≡ new_state)
        × ((t ≡ s)
            ⊎ ((t.previous_state ≡ some s.state)
                × (t.state_history ≡ s.state_history ++ (s.state, new_state, reason) ∷ [])))
  unfolding transition_to advance after_warning
  transition_to-completes new_state reason force ts_ms s = elim (==-cases new_state s.state) [
    | inl same ↦ (s, rw (same, ==_refl s.state) refl, sym same, inl refl)
    | inr other ↦ elim (Bool-cases (mem new_state (legal_transitions s.state))) [
      | inl legal ↦
          (advance s.state new_state reason s, rw (other, legal) refl, refl, inr (refl, refl))
      | inr illegal ↦
          elim (append_event-warning admits false ts_ms (warning_fields s.state new_state reason)
            s) [
              | inl e ↦ (
                advance s.state new_state reason
                    (with_warning ts_ms (warning_fields s.state new_state reason) s),
                rw (other, illegal, e) refl,
                refl,
                inr (refl, refl),
              )
              | inr e ↦ absurd (cc (e.1))
            ]
    ]
  ]

  advance-Chain :
      (new_state : CallState) (reason : Option Text) (s : CallSession)
      → IsTraced s
      → (new_state == s.state) ≡ false
      → Chain init (s.state_history ++ (s.state, new_state, reason) ∷ []) new_state
  advance-Chain new_state reason s h other =
      Chain-append init s.state new_state s.state_history reason h.chain
        (λ e. cc ((states_equal_iff new_state s.state).1 (sym e), other))

  -- Whether a request returns or raises, if the state history led from the initial state to the
  -- present one, with no step from a state to itself, and the transcript had one warning for each
  -- step that is not listed, then so it is afterwards.
  pub transition_to-IsTraced :
      (strict : Bool) (new_state : CallState) (reason : Option Text) (force : Bool) (ts_ms : ℕ)
      (s : CallSession)
      → IsTraced s
      → IsTraced (left (transition_to admits strict new_state reason force ts_ms s))
  unfolding transition_to advance after_warning
  transition_to-IsTraced strict new_state reason force ts_ms s h =
      let step : Step = (s.state, new_state, reason) in
      elim (Bool-cases (new_state == s.state)) [
        | inl same ↦ rw same h
        | inr other ↦ elim (Bool-cases (mem new_state (legal_transitions s.state))) [
          | inl legal ↦
              rw (other, legal)
                (record {
                  chain = advance-Chain new_state reason s h other;
                  warned =
                      h.warned
                      ∙ sym (is_illegal-append step s.state_history ∙ rw legal (omega arith));
                })
          | inr illegal ↦
              elim (append_event-warning admits strict ts_ms
                (warning_fields s.state new_state reason) s) [
                  | inl e ↦
                      rw (other, illegal, e)
                        (record {
                          chain = advance-Chain new_state reason s h other;
                          warned =
                              is_warning-append ts_ms (warning_fields s.state new_state reason)
                                s.full_transcript
                              ∙ ap (λ n. n + 1) h.warned
                              ∙ sym (is_illegal-append step s.state_history ∙ rw illegal refl);
                        })
                  | inr e ↦ rw (other, illegal, e.0) h
                ]
        ]
      ]

pub new-IsTraced : IsTraced new
unfolding new
new-IsTraced = record { chain = refl; warned = refl }
