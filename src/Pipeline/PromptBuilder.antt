-- ===== src/Pipeline/PromptBuilder.antt =====
-- isales_engine/pipeline/prompt_builder.py and greeting.py: the messages that the main language
-- model is sent. `str` of a number is the parameter `digits`, values of a lead's data are their
-- texts.
pub mod Growth
mod Examples
use isales_engine.CallSession.{CallSession, DialogTurn, Role, assistant, user}
use isales_engine.Prelude.{
  ltb, if◌then◌else◌, nat_eq, text_eq, Text, text, strip, non_empty, Dict, ℕ, Bool, ◌&&◌, Option,
  none, some, List, [], ◌∷◌, ◌++◌, map,
}

pub data ChatRole : Type 0 where
  system from_user from_assistant : ChatRole

pub record Message : Type 0 where
  pub role : ChatRole
  pub content : Text

pub record LeadInfo : Type 0 where
  pub name : Option Text
  pub phone : Text
  pub custom_data : Dict Text Text

-- The part of `PipelineConfig` that the prompts are made of; `system_prompt` is the main slot's.
pub record PromptConfig : Type 0 where
  pub system_prompt : Text
  pub restructure_prompt : Option Text
  pub default_replies : List Text
  pub lead : LeadInfo
  pub last_call_summary : Option Text
  pub follow_up_count : ℕ
  pub short_reply_active : Bool

abbrev pub wrap_up_append : Text
wrap_up_append = text "\n\n---\n【当前状态：收尾对话】\n目标已达成。请简短确认或告别后结束对话，不要再尝试推进新议题。\n"

abbrev pub short_reply_append : Text
short_reply_append = text "\n\n【打断保护】请用一句话回应。"

unfoldable pub or_text : Option Text → Text → Text
or_text none other = other
or_text (some s) other = if non_empty s then s else other

-- `sep.join(parts)`
unfoldable pub join : Text → List Text → Text
join sep [] = []
join sep (part ∷ []) = part
join sep (part ∷ next ∷ parts) = part ++ (sep ++ join sep (next ∷ parts))

unfoldable pub render_entry : Text × Text → Text
render_entry (k, v) = k ++ (text "=" ++ v)

unfoldable pub render_lead_info : LeadInfo → Text
unfolding or_text join render_entry
render_lead_info lead =
    let custom = or_text (some (join (text ", ") (map render_entry lead.custom_data))) (text "—") in
    text "【线索信息】name="
    ++ (or_text lead.name (text "—")
        ++ (text ", phone=" ++ (lead.phone ++ (text ", custom_data=" ++ custom))))

unfoldable pub summary_part : PromptConfig → List Text
summary_part config = elim config.last_call_summary [
  | none ↦ []
  | some summary ↦
      if non_empty summary && ltb 0 config.follow_up_count
      then (text "【上次通话纪要】\n" ++ summary) ∷ []
      else []
]

unfoldable pub render_context : PromptConfig → Text
unfolding join summary_part render_lead_info
render_context config =
    text "\n\n---\n"
    ++ join (text "\n\n") (summary_part config ++ render_lead_info config.lead ∷ [])

unfoldable pub role_of : Role → ChatRole
role_of user = from_user
role_of assistant = from_assistant

unfoldable pub message_of : DialogTurn → Message
unfolding role_of
message_of turn = record { role = role_of turn.role; content = turn.text }

module _ (digits : ℕ → Text) where
  unfoldable pub follow_up_append : ℕ → Text
  follow_up_append n =
      text "\n\n【跟进上下文】\n这是对该用户的第 " ++ (digits n ++ text " 次跟进。请根据上述【上次通话纪要】调整开场和后续话术，避免重复内容。\n")

  unfoldable pub system_content : PromptConfig → Bool → Text
  unfolding render_context follow_up_append
  system_content config is_wrap_up =
      config.system_prompt
      ++ (render_context config
          ++ ((if ltb 0 config.follow_up_count then follow_up_append config.follow_up_count else [])
              ++ ((if config.short_reply_active then short_reply_append else [])
                  ++ (if is_wrap_up then wrap_up_append else []))))

  unfoldable pub build_main_messages : CallSession → PromptConfig → Bool → List Message
  unfolding system_content message_of
  build_main_messages session config is_wrap_up =
      record { role = system; content = system_content config is_wrap_up }
      ∷ map message_of session.dialog_history

unfoldable pub build_greeting_messages : PromptConfig → List Message
unfolding or_text
build_greeting_messages config =
    let asked : Text =
      text "【线索信息】name="
      ++ (or_text config.lead.name (text "—")
          ++ (text ", phone=" ++ (config.lead.phone ++ text "\n【任务】请生成开场白，直接输出要对客户说的话。"))) in
    record { role = system; content = config.system_prompt }
    ∷ record { role = from_user; content = asked }
    ∷ []

-- The outcome of one `chat`: its content, or the text of the exception, a timeout included.
pub data Chat : Type 0 where
  answered : Option Text → Chat
  raised : Text → Chat

abbrev pub hello : Text
hello = text "您好。"

unfoldable pub spoken_greeting : Chat → Text
unfolding or_text
spoken_greeting (raised _) = hello
spoken_greeting (answered content) = or_text (some (strip (or_text content []))) hello

-- The model is asked only where no template is fixed.
unfoldable pub generate_greeting : (List Message → Chat) → PromptConfig → Option Text → Text
unfolding build_greeting_messages spoken_greeting
generate_greeting ask config fixed_template =
    let said = spoken_greeting (ask (build_greeting_messages config)) in
    elim fixed_template [
      | none ↦ said
      | some template ↦ if non_empty template then template else said
    ]
