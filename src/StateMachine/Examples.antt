-- ===== src/StateMachine/Examples.antt =====
-- Tests of isales_engine/state_machine.py: a call that is transferred before it is connected.
use isales_engine.CallSession.{init, transferring, Event, append_event, is_known, new}
use isales_engine.CallSession.Mirror.{left}
use isales_engine.StateMachine.{transition_to}
use isales_engine.Prelude.{length, nat_eq, text_eq, ◌≡◌, refl, Bool, true, false, none}

abbrev refuses : Event → Bool
refuses event = false

warns :
    length (left (transition_to refuses false transferring none false 5 new)).full_transcript ≡ 1
unfolding transition_to new append_event is_known
warns = refl

stays_when_strict : (left (transition_to refuses true transferring none false 5 new)).state ≡ init
unfolding transition_to new append_event is_known
stays_when_strict = refl
