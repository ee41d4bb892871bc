-- ===== src/RunLoop/Lifecycle.antt =====
-- The life of a call as an abstract machine, and what a session of the run loop owes it: its state
-- history follows the machine, its dialog history mirrors its transcript.
use isales_engine.CallSession.{
  CallState, init, in_call, transferring, end_call, CallSession, Event, recorded, append_event,
  is_known, mirror,
}
use isales_engine.CallSession.Mirror.{IsMirrored, append_event-IsMirrored}
use isales_engine.StateMachine.{transition_to, advance, legal_transitions, states_equal, state_eq}
use isales_engine.Prelude.{
  if◌then◌else◌, Bool-cases, length, keep, length-append, keep-append, nat_eq, text_eq, ◌==◌, mem,
  Text, text, ℕ, ◌+◌, ◌≡◌, refl, inl, inr, Bool, true, false, not, ◌&&◌, Option, List, [], ◌∷◌,
  ◌++◌, arith,
}

-- A call is answered or not; once answered it may be marked for a handoff; every call that has not
-- ended may be hung up.
pub data Lifecycle : CallState → CallState → Type 0 where
  answered : Lifecycle init in_call
  unanswered : Lifecycle init end_call
  marked : Lifecycle in_call transferring
  hung_up : Lifecycle in_call end_call
  handed_over : Lifecycle transferring end_call

-- A history that goes from one state to another by steps of the machine, each from where the last
-- one ended.
abbrev pub Trail : CallState → List (CallState × CallState × Option Text) → CallState → Type 0
Trail a [] b = a ≡ b
Trail a ((from, to, reason) ∷ steps) b = (a ≡ from) × Lifecycle from to × Trail to steps b

pub Trail-append :
    (a b c : CallState) (steps : List (CallState × CallState × Option Text)) (reason : Option Text)
    → Trail a steps b
    → Lifecycle b c
    → Trail a (steps ++ (b, c, reason) ∷ []) c
Trail-append a b c [] reason h step = (h, step, refl)
Trail-append a b c ((from, to, why) ∷ steps) reason h step =
    (h.0, h.1, Trail-append to b c steps reason h.2 step)

Lifecycle-mem : {a b : CallState} → Lifecycle a b → mem b (legal_transitions a) ≡ true
unfolding legal_transitions
Lifecycle-mem answered = refl
Lifecycle-mem unanswered = refl
Lifecycle-mem marked = refl
Lifecycle-mem hung_up = refl
Lifecycle-mem handed_over = refl

Lifecycle-moves : {a b : CallState} → Lifecycle a b → states_equal b a ≡ false
Lifecycle-moves answered = refl
Lifecycle-moves unanswered = refl
Lifecycle-moves marked = refl
Lifecycle-moves hung_up = refl
Lifecycle-moves handed_over = refl

abbrev pub is_hangup : Event → Bool
is_hangup event = event.kind == text "hangup"

-- How many hangups the transcript records.
abbrev pub hangups : CallSession → ℕ
hangups s = length (keep is_hangup s.full_transcript)

and_false : (b : Bool) → (b && false) ≡ false
and_false true = refl
and_false false = refl

-- The session with the event recorded.
abbrev pub with_event : Event → CallSession → CallSession
with_event event s = record s {
  full_transcript = s.full_transcript ++ event ∷ [];
  dialog_history = mirror event s.dialog_history;
}

module _ (admits : Event → Bool) where
  pub transition_to-step :
      (new_state : CallState) (reason : Option Text) (force : Bool) (ts : ℕ) (s : CallSession)
      → Lifecycle s.state new_state
      → transition_to admits false new_state reason force ts s
        ≡ recorded (advance s.state new_state reason s)
  unfolding transition_to
  transition_to-step new_state reason force ts s step =
      rw (Lifecycle-moves step, Lifecycle-mem step) refl

  pub transition_to-stay :
      (new_state : CallState) (reason : Option Text) (force : Bool) (ts : ℕ) (s : CallSession)
      → states_equal new_state s.state ≡ true
      → transition_to admits false new_state reason force ts s ≡ recorded s
  unfolding transition_to
  transition_to-stay new_state reason force ts s same = rw same refl

  pub append_event-lenient :
      (e : Event) (s : CallSession)
      → is_known e.kind ≡ true
      → append_event admits false e.kind e.ts e.fields s ≡ recorded (with_event e s)
  unfolding append_event
  append_event-lenient e s known = rw (known, and_false (not (admits e))) refl

  pub with_event-IsMirrored :
      (e : Event) (s : CallSession)
      → is_known e.kind ≡ true
      → IsMirrored s
      → IsMirrored (with_event e s)
  with_event-IsMirrored e s known h =
      rw (append_event-lenient e s known) at
        (append_event-IsMirrored admits false e.kind e.ts e.fields s h)

pub hangups-with_event :
    (event : Event) (s : CallSession)
    → hangups (with_event event s) ≡ hangups s + (if is_hangup event then 1 else 0)
hangups-with_event event s = elim (Bool-cases (is_hangup event)) [
  | inl yes_it_is ↦ rw (keep-append, yes_it_is) (length-append (keep is_hangup s.full_transcript) _)
  | inr no_hangup ↦
      rw (keep-append, no_hangup)
        (omega (arith, length-append (keep is_hangup s.full_transcript) []))
]
