-- ===== src/Referee.antt =====
-- isales_engine/referee.py: the part of the dialog that a referee is shown, and how the answer of its
-- language model is read. Prompt is `run_referee`.
pub mod Answers
pub mod Prompt
mod Examples
use isales_engine.CallSession.{DialogTurn, Role, assistant, user}
use isales_engine.Streaming.Types.{RefereeResult, failopen_invalid, fail_open}
use isales_engine.Prelude.{
  if◌then◌else◌, drop_while, newest, nat_eq, text_eq, ◌==◌, Text, text, is_space, strip_chars,
  non_empty, ℕ, ◌*◌, none, some, List, [], ◌∷◌, ◌++◌, map,
}

abbrev pub recent_rounds : ℕ
recent_rounds = 3

abbrev pub empty_history_placeholder : Text
empty_history_placeholder = text "（首轮对话，无历史）"

-- the characters of `.strip(…)` around a token
abbrev pub surrounding : Text
surrounding = text ".,。，!！?？\"'`：:"

unfoldable pub prefix_of : Role → Text
prefix_of user = text "用户"
prefix_of assistant = text "AI"

-- `f"{prefix}：{turn.text}"`
unfoldable pub render_turn : DialogTurn → Text
unfolding prefix_of
render_turn turn = prefix_of turn.role ++ (text "：" ++ turn.text)

-- `"\n".join(lines)`
unfoldable pub join_lines : List Text → Text
join_lines [] = []
join_lines (line ∷ []) = line
join_lines (line ∷ next ∷ lines) = line ++ 10 ∷ join_lines (next ∷ lines)

unfoldable pub render_dialog_history : List DialogTurn → Text
unfolding render_turn join_lines
render_dialog_history [] = empty_history_placeholder
render_dialog_history (turn ∷ turns) = join_lines (map render_turn (turn ∷ turns))

-- `dialog_history[-(rounds * 2):]`, which for no rounds is the whole list
unfoldable pub recent_dialog_rounds : ℕ → List DialogTurn → List DialogTurn
recent_dialog_rounds rounds [] = []
recent_dialog_rounds rounds (turn ∷ turns) =
    if rounds == 0 then turn ∷ turns else newest (rounds * 2) (turn ∷ turns)

-- The characters up to the first white space.
unfoldable pub take_word : Text → Text
take_word [] = []
take_word (c ∷ cs) = let rest = take_word cs in if is_space c then [] else c ∷ rest

-- `tokens[0]` of `raw.strip().split()`, or nothing
unfoldable pub first_token : Text → Text
unfolding take_word
first_token raw = take_word (drop_while is_space raw)

unfoldable pub parse_referee_output : Text → Text → ℕ → RefereeResult
unfolding first_token fail_open
parse_referee_output raw label duration_ms =
    let category = strip_chars surrounding (first_token raw) in
    if non_empty category
    then record {
      label = label;
      category = some category;
      confidence = 1;
      duration_ms = duration_ms;
      raw_output = some raw;
      failopen_reason = none;
    }
    else fail_open label failopen_invalid duration_ms (some raw)
