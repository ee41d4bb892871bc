-- ===== src/CallSession/Examples.antt =====
-- A session that greets, and the theorems on isales_engine/call_session.py at it.
use isales_engine.CallSession.{mirror, Event, new, append_event, is_dialog, is_known}
use isales_engine.CallSession.Mirror.{IsMirrored, left, append_event-IsMirrored, new-IsMirrored}
use isales_engine.Prelude.{
  length, nat_eq, text_eq, Text, text, Dict, ◌≡◌, refl, Bool, true, [], ◌∷◌,
}

abbrev admits_all : Event → Bool
admits_all event = true

abbrev greeting : Dict Text Text
greeting = (text "text", text "您好") ∷ []

append_event-IsMirrored_example :
    IsMirrored (left (append_event admits_all true (text "greeting") 12 greeting new))
append_event-IsMirrored_example =
    append_event-IsMirrored admits_all true (text "greeting") 12 greeting new new-IsMirrored

greeting_is_mirrored :
    length (left (append_event admits_all true (text "greeting") 12 greeting new)).dialog_history
    ≡ 1
unfolding append_event new is_known mirror is_dialog
greeting_is_mirrored = refl
