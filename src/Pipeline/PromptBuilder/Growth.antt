-- ===== src/Pipeline/PromptBuilder/Growth.antt =====
-- How the messages follow the session, and the greeting.
use isales_engine.Pipeline.PromptBuilder.{
  Message, PromptConfig, build_main_messages, message_of, generate_greeting, spoken_greeting,
  or_text, Chat, answered, raised,
}
use isales_engine.CallSession.{
  Recorded, DialogTurn, CallSession, Event, append_event, recorded, schema_error, value_error,
  is_dialog, is_known, mirror, turn_of,
}
use isales_engine.Prelude.{
  if◌then◌else◌, Bool-cases, nat_eq, text_eq, Text, strip, non_empty, ℕ, ◌≡◌, refl, sym, ap, inl,
  inr, Bool, true, not, ◌&&◌, Option, none, some, List, [], ◌∷◌, ◌++◌, map, append-nil,
}

map-append {ℓ κ} :
    {A : Type ℓ} {B : Type κ} (f : A → B) (xs ys : List A) → map f (xs ++ ys) ≡ map f xs ++ map f ys
map-append f [] ys = refl
map-append f (x ∷ xs) ys = ap (λ zs. f x ∷ zs) (map-append f xs ys)

-- What an event adds to the messages: its turn, if it belongs to the conversation.
abbrev pub added : Event → List Message
added event = if is_dialog event.kind then message_of (turn_of event) ∷ [] else []

mirrored :
    (event : Event) (session : CallSession)
    → map message_of (mirror event session.dialog_history)
      ≡ map message_of session.dialog_history ++ added event
unfolding mirror
mirrored event session = elim (Bool-cases (is_dialog event.kind)) [
  | inl spoken ↦ rw spoken (map-append message_of session.dialog_history (turn_of event ∷ []))
  | inr silent ↦ rw silent (sym (append-nil (map message_of session.dialog_history)))
]

abbrev dialog_of : Recorded → List DialogTurn
dialog_of (recorded session) = session.dialog_history
dialog_of (schema_error session) = session.dialog_history
dialog_of (value_error session) = session.dialog_history

-- Where an event is recorded, the messages grow at their end by the event's turn if it belongs to
-- the conversation, and by nothing else; those already there, the system message included, stay.
pub build_main_messages-append_event :
    (digits : ℕ → Text) (admits : Event → Bool) (strict : Bool) (event : Event)
    (session session' : CallSession) (config : PromptConfig) (is_wrap_up : Bool)
    → append_event admits strict event.kind event.ts event.fields session ≡ recorded session'
    → build_main_messages digits session' config is_wrap_up
      ≡ build_main_messages digits session config is_wrap_up ++ added event
unfolding append_event build_main_messages
build_main_messages-append_event digits admits strict event session session' config is_wrap_up h =
    elim (Bool-cases (is_known event.kind)) [
      | inl known ↦ elim (Bool-cases (not (admits event) && strict)) [
        | inl refused ↦
            let e : schema_error session ≡ recorded session' = rw (known, refused) at h in cc
        | inr admitted ↦
            let e : dialog_of (append_event admits strict event.kind event.ts event.fields session)
                ≡ session'.dialog_history =
              ap dialog_of h in
            let d : mirror event session.dialog_history ≡ session'.dialog_history =
              rw (known, admitted) at e in
            rw (← d) (rw (mirrored event session))
      ]
      | inr unknown ↦ let e : value_error session ≡ recorded session' = rw unknown at h in cc
    ]

spoken_greeting-non_empty : (chat : Chat) → non_empty (spoken_greeting chat) ≡ true
unfolding spoken_greeting or_text
spoken_greeting-non_empty (raised _) = refl
spoken_greeting-non_empty (answered content) =
    elim (Bool-cases (non_empty (strip (or_text content [])))) [
      | inl said ↦ rw said said
      | inr silent ↦ rw silent
    ]

-- The greeting is never empty, whatever the template is, and whatever the model answers or raises.
pub generate_greeting-non_empty :
    (ask : List Message → Chat) (config : PromptConfig) (fixed_template : Option Text)
    → non_empty (generate_greeting ask config fixed_template) ≡ true
unfolding generate_greeting
generate_greeting-non_empty ask config none = spoken_greeting-non_empty _
generate_greeting-non_empty ask config (some template) = elim (Bool-cases (non_empty template)) [
  | inl given ↦ rw given given
  | inr blank ↦ rw blank (spoken_greeting-non_empty _)
]
