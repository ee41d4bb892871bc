-- ===== src/Pipeline/Decider/Examples.antt =====
-- Two referees, four rules, and the theorems at them.
use isales_engine.Prelude.{
  nat_eq, text_eq, Text, text, ◌≡◌, refl, sym, subst, none, some, List, [], ◌∷◌,
}
use isales_engine.Streaming.Types.{RefereeResult}
use isales_engine.Pipeline.Decider.{RoutingRule, transition, decide, act}
use isales_engine.Pipeline.Decider.Laws.{reported, Fires, decide-first_match}

abbrev answered : Text → Text → RefereeResult
answered label category = record {
  label = label;
  category = some category;
  confidence = 1;
  duration_ms = 80;
  raw_output = some category;
  failopen_reason = none;
}

abbrev failed : Text → RefereeResult
failed label = record {
  label = label;
  category = none;
  confidence = 0;
  duration_ms = 300;
  raw_output = none;
  failopen_reason = some (text "timeout");
}

abbrev results : List RefereeResult
results = answered (text "gate") (text "goal") ∷ failed (text "mood") ∷ []

abbrev route_rule : Text → Text → Text → RoutingRule
route_rule referee category kind = record {
  referee = some referee;
  matches = some (category ∷ []);
  action = some (record {
    kind = some kind;
    to = some (text "closing");
    goal_type = none;
    then_state = none;
    tool = none;
    closing_phrase = none;
  });
}

abbrev mood_rule : RoutingRule
mood_rule = route_rule (text "mood") (text "angry") (text "tool")

abbrev goal_rule : RoutingRule
goal_rule = route_rule (text "gate") (text "goal") (text "transition")

abbrev late_rule : RoutingRule
late_rule = route_rule (text "gate") (text "goal") (text "route")

mood_silent : ¬ Fires results mood_rule
mood_silent f =
    let e : text "mood" ≡ f.label = cc (f.by_referee) in
    cc (subst (λ l. reported l results ≡ some (some f.category)) (sym e) f.given)

goal-Fires : Fires results goal_rule
goal-Fires = record {
  label = text "gate";
  category = text "goal";
  listed = text "goal" ∷ [];
  by_referee = refl;
  given = refl;
  lists = refl;
  is_listed = refl;
}

decide-first_match_example : decide results (mood_rule ∷ goal_rule ∷ late_rule ∷ []) ≡ act goal_rule
decide-first_match_example =
    decide-first_match results (mood_rule ∷ []) (late_rule ∷ []) goal_rule (mood_silent, tt)
      goal-Fires

goal_transition : (act goal_rule).kind ≡ transition
unfolding act
goal_transition = refl
