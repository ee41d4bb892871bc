-- ===== src/Realtime/Filler/Examples.antt =====
-- Three phrases, one of them blank: which of them isales_engine/realtime/filler_manager.py may say.
use isales_engine.Realtime.Filler.{ready_phrases}
use isales_engine.Realtime.Filler.Rounds.{Distinct}
use isales_engine.Prelude.{
  length, nat_eq, text_eq, Text, text, is_space, ◌≤◌, refl, List, [], ◌∷◌, arith,
}

abbrev phrases : List Text
phrases = text "嗯" ∷ text "  " ∷ text "好的" ∷ []

ready-Distinct : Distinct (ready_phrases phrases)
unfolding ready_phrases is_space
ready-Distinct = (refl, (refl, tt))

two_are_ready : 2 ≤ length (ready_phrases phrases)
unfolding ready_phrases is_space
two_are_ready = omega arith
