-- ===== src/Referee/Prompt.antt =====
-- isales_engine/referee.py: `run_referee`. The answer of the language model is a parameter; the
-- placeholders of the campaign's prompt are filled in one after the other.
pub mod Filling
use isales_engine.Referee.{render_dialog_history, parse_referee_output}
use isales_engine.Pipeline.PromptBuilder.{Message, system, from_user, Chat, answered, raised}
use isales_engine.Streaming.Types.{RefereeResult, failopen_invalid, fail_open}
use isales_engine.CallSession.{DialogTurn}
use isales_engine.Prelude.{
  if◌then◌else◌, length, nat_eq, text_eq, Text, text, starts_with, non_empty, ℕ, zero, suc, ◌-◌,
  Option, none, some, List, [], ◌∷◌, ◌++◌,
}

-- `s.replace(old, new)` for an `old` that is not empty, behind the first `skip` characters, which
-- belong to an occurrence that has been replaced.
unfoldable pub replace_behind : ℕ → Text → Text → Text → Text
replace_behind skip old new [] = []
replace_behind (suc skip) old new (c ∷ s) = replace_behind skip old new s
replace_behind zero old new (c ∷ s) =
    let found = starts_with old (c ∷ s) in
    let rest = replace_behind (if found then length old - 1 else 0) old new s in
    if found then new ++ rest else c ∷ rest

unfoldable pub replace : Text → Text → Text → Text
unfolding replace_behind
replace old new s = replace_behind 0 old new s

pub record RefereeSpec : Type 0 where
  pub label : Text
  pub system_prompt : Text

abbrev pub user_primer : Text
user_primer = text "请按系统提示只输出一个分类词，不要任何其他内容、标点或 JSON。"

abbrev pub utterance_mark : Text
utterance_mark = text "{{user_last_utterance}}"

abbrev pub history_mark : Text
history_mark = text "{{recent_dialog_history}}"

abbrev pub interrupted_mark : Text
interrupted_mark = text "{{was_interrupted}}"

abbrev pub reply_mark : Text
reply_mark = text "{{interrupted_reply}}"

-- What a turn fills in: the last utterance, the rounds shown, and the unspoken rest of a line that
-- the customer has interrupted.
pub record Asked : Type 0 where
  pub user_last_utterance : Text
  pub recent_dialog_history : List DialogTurn
  pub interrupt_remaining_text : Option Text

unfoldable pub remainder_of : Option Text → Text
remainder_of none = []
remainder_of (some s) = s

unfoldable pub fill : Asked → Text → Text
unfolding replace remainder_of
fill asked prompt =
    let remainder = remainder_of asked.interrupt_remaining_text in
    let with_utterance = replace utterance_mark asked.user_last_utterance prompt in
    let with_history =
      replace history_mark (render_dialog_history asked.recent_dialog_history) with_utterance in
    let with_interrupted =
      replace interrupted_mark (if non_empty remainder then text "是" else text "否") with_history in
    replace reply_mark remainder with_interrupted

unfoldable pub referee_messages : RefereeSpec → Asked → List Message
unfolding fill
referee_messages spec asked =
    record { role = system; content = fill asked spec.system_prompt }
    ∷ record { role = from_user; content = user_primer }
    ∷ []

-- What awaiting `llm.chat` gives: an answer or an exception, or the cancellation of the task.
pub data Asking : Type 0 where
  responds : Chat → Asking
  chat_cancelled : Asking

-- How the task of a referee ends. `ran_raised` is an exception that leaves it.
pub data Ran : Type 0 where
  reported : RefereeResult → Ran
  ran_raised : Text → Ran
  ran_cancelled : Ran

-- The `try`: `except Exception` catches every exception, but not a cancellation.
unfoldable pub judged : Text → ℕ → Asking → Ran
judged label duration_ms (responds (raised _)) =
    reported (fail_open label failopen_invalid duration_ms none)
judged label duration_ms (responds (answered none)) =
    reported (fail_open label failopen_invalid duration_ms none)
judged label duration_ms (responds (answered (some raw))) =
    reported (parse_referee_output raw label duration_ms)
judged label duration_ms chat_cancelled = ran_cancelled

unfoldable pub run_referee : (List Message → Asking) → ℕ → RefereeSpec → Asked → Ran
unfolding referee_messages judged
run_referee ask duration_ms spec asked =
    judged spec.label duration_ms (ask (referee_messages spec asked))
