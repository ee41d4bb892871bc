-- ===== src/Realtime/InterruptionRules/Examples.antt =====
-- A tree with all composites, and the theorems on isales_engine/realtime/interruption_rules.py and
-- interruption_detector.py at it. The patterns here are literal texts that are searched for.
use isales_engine.Prelude.Int.{pos}
use isales_engine.Realtime.InterruptionRules.{
  Regex, RuleInput, Rules, keyword, duration, regex, and_rule, or_rule, not_rule, none_rule, nil,
  cons, evaluate, ok, build_rule,
}
use isales_engine.Realtime.InterruptionRules.Verdicts.{Holds, evaluate-Holds}
use isales_engine.Realtime.InterruptionRules.Building.{describe, build_rule-describe}
use isales_engine.Prelude.{
  nat_eq, text_eq, Text, text, contains, ◌≡◌, refl, ◌↔◌, true, some, [], ◌∷◌,
}

abbrev literal : Regex
literal = record {
  Pattern = Text;
  compile = λ source. some source;
  search = λ pattern said. contains pattern said;
}

abbrev input : RuleInput
input = record { text = text "等一下"; elapsed_ms = pos 400 }

abbrev parts : Rules Text
parts =
    cons (or_rule (cons none_rule (cons (regex (text "等")) nil)))
      (cons (not_rule (keyword (text "嗯" ∷ []) (text "exact"))) (cons (duration (pos 600)) nil))

evaluate-Holds_example :
    ((evaluate literal (and_rule parts) input).interrupt ≡ true)
    ↔ Holds literal (and_rule parts) input
evaluate-Holds_example = evaluate-Holds literal input (and_rule parts)

build_rule-describe_example :
    build_rule literal (describe literal (λ p. p) (and_rule parts)) ≡ ok (and_rule parts)
build_rule-describe_example = build_rule-describe literal (λ p. p) (λ p. refl) (and_rule parts)
