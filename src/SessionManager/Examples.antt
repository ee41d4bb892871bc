-- ===== src/SessionManager/Examples.antt =====
-- Two calls that stand for themselves, and the theorem on isales_engine/session_manager.py.
use isales_engine.SessionManager.{SessionManager, get}
use isales_engine.Prelude.{nat_eq, text_eq, Text, text, ℕ, ◌≡◌, refl, none, [], ◌∷◌}

abbrev id_of : ℕ × Text → ℕ
id_of session = session.0

abbrev one : SessionManager (ℕ × Text)
one = record { sessions = (4, (4, text "first")) ∷ [] }

abbrev other : ℕ × Text
other = (9, text "other")

free : get 9 one ≡ none
unfolding get
free = refl
