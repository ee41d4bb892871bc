-- ===== src/Realtime/WrapUp/Examples.antt =====
-- A wrap-up of two rounds or ten seconds, and the theorem on isales_engine/wrapup/manager.py at it.
use isales_engine.Realtime.WrapUp.{WrapUpConfig}
use isales_engine.Prelude.{nat_eq, text_eq, text, false, [], ◌∷◌}

abbrev config : WrapUpConfig
config = record {
  max_rounds = 2;
  max_seconds = 10;
  closing_phrases = text "感谢接听" ∷ text "祝您愉快" ∷ [];
  referee_enabled = false;
}
