-- ===== src/Pipeline/PromptBuilder/Examples.antt =====
-- A follow-up call whose caller speaks, and the theorem on
-- isales_engine/pipeline/prompt_builder.py at it.
use isales_engine.Pipeline.PromptBuilder.{
  PromptConfig, build_main_messages, system_content, render_context, summary_part, join,
  render_lead_info, or_text, render_entry, follow_up_append, wrap_up_append, generate_greeting,
  spoken_greeting, raised,
}
use isales_engine.Pipeline.PromptBuilder.Growth.{added, build_main_messages-append_event}
use isales_engine.CallSession.{
  Role, new, Event, CallSession, append_event, is_known, mirror, is_dialog, turn_of,
}
use isales_engine.Prelude.{
  nat_eq, text_eq, Text, text, ℕ, ◌+◌, ◌≡◌, refl, true, false, none, some, [], ◌∷◌, ◌++◌,
}

abbrev config : PromptConfig
config = record {
  system_prompt = text "你是客服。";
  restructure_prompt = none;
  default_replies = [];
  lead = record { name = none; phone = text "138"; custom_data = (text "a", text "b") ∷ [] };
  last_call_summary = some (text "有意向");
  follow_up_count = 2;
  short_reply_active = false;
}

abbrev one_digit : ℕ → Text
one_digit n = (48 + n) ∷ []

abbrev event : Event
event = record { kind = text "user_speech"; ts = 40; fields = (text "text", text "你好") ∷ [] }

abbrev after : CallSession
after = record new {
  full_transcript = event ∷ [];
  dialog_history = record { role = Role.user; text = text "你好"; ts_ms = 40 } ∷ [];
}

reads :
    system_content one_digit config true
    ≡ text "你是客服。\n\n---\n【上次通话纪要】\n有意向\n\n【线索信息】name=—, phone=138, custom_data=a=b"
      ++ (follow_up_append one_digit 2 ++ wrap_up_append)
unfolding system_content render_context summary_part join render_lead_info or_text render_entry
    follow_up_append
reads = refl

greets : generate_greeting (λ messages. raised (text "timeout")) config (some []) ≡ text "您好。"
unfolding generate_greeting spoken_greeting
greets = refl

build_main_messages-append_event_example :
    build_main_messages one_digit after config false
    ≡ build_main_messages one_digit new config false ++ added event
unfolding append_event is_known mirror is_dialog turn_of new
build_main_messages-append_event_example =
    build_main_messages-append_event one_digit (λ e. true) false event new after config false refl
