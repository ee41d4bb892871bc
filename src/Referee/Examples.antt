-- ===== src/Referee/Examples.antt =====
-- Tests of isales_engine/referee.py.
use isales_engine.Streaming.Types.{effective_category, fail_open}
use isales_engine.Referee.{parse_referee_output}
use isales_engine.Referee.Prompt.{Asked, fill, RefereeSpec, run_referee, responds, reported, judged}
use isales_engine.Pipeline.PromptBuilder.{raised}
use isales_engine.Prelude.{nat_eq, text_eq, Text, text, is_space, ◌≡◌, refl, none, some, []}

abbrev raw : Text
raw = text " \"goal\"。 because"

reads : effective_category (parse_referee_output raw (text "gate") 80) ≡ some (text "goal")
unfolding effective_category parse_referee_output is_space
reads = refl

abbrev asked : Asked
asked = record {
  user_last_utterance = text "多少钱";
  recent_dialog_history = [];
  interrupt_remaining_text = some (text "首先");
}

-- The placeholders are filled in, the interrupted line included.
fills :
    fill asked (text "{{was_interrupted}}:{{interrupted_reply}}/{{user_last_utterance}}")
    ≡ text "是:首先/多少钱"
unfolding fill
fills = refl

abbrev spec : RefereeSpec
spec = record { label = text "gate"; system_prompt = text "分类{user}" }

falls_open :
    run_referee (λ messages. responds (raised (text "timeout"))) 600 spec asked
    ≡ reported (fail_open (text "gate") (text "invalid") 600 none)
unfolding run_referee judged
falls_open = refl
