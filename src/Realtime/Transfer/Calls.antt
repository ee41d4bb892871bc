-- ===== src/Realtime/Transfer/Calls.antt =====
-- Which calls of the LLM are made, and what a failing LLM does.
use isales_engine.Realtime.Transfer.{
  no_object, attribute_error, Numbers, Loaded, Message, TransferConfig, TransferDecision, answer,
  evaluate_transfer, evaluate_transfer_llm, evaluate_transfer_cheap, Digits, no_transfer,
  intent_messages, llm_messages, intent_asked,
}
use isales_engine.Prelude.{
  if◌then◌else◌, Bool-cases, nat_eq, text_eq, Text, ℕ, ◌≡◌, refl, ◌↔◌, ◌⊎◌, inl, inr, Bool, true,
  false, Option, none, some, List, [], ◌∷◌, ◌++◌, arith,
}

module _ (nums : Numbers) (json_loads : Text → Loaded nums.Number)
    (chat : List Message → Option Text) (draw : ℕ) (user_text : Text)
    (config : TransferConfig nums.Number) where
  llm_no_calls : ((evaluate_transfer_llm nums json_loads chat draw user_text config).calls ≡ []) ↔ (
      (intent_asked nums json_loads chat draw user_text config ≡ none)
      × (config.llm_enabled ≡ false))
  unfolding evaluate_transfer_llm
  llm_no_calls = (λ h. (ground arith, ground arith), λ h. ground arith)

  with_cheap :
      (cheap : TransferDecision)
      → ((if cheap.triggered
            then record { calls = []; result = answer cheap }
            else evaluate_transfer_llm nums json_loads chat draw user_text config).calls
          ≡ [])
        ↔ ((cheap.triggered ≡ true)
            ⊎ ((intent_asked nums json_loads chat draw user_text config ≡ none)
                × (config.llm_enabled ≡ false)))
  with_cheap cheap = elim (Bool-cases cheap.triggered) [
    | inl fired ↦ rw fired (λ _. inl refl, λ _. refl)
    | inr silent ↦
        rw silent
          (λ h. inr (llm_no_calls.0 h), λ h. elim h [ inl x ↦ cc | inr y ↦ llm_no_calls.1 y ])
  ]

  -- No LLM is called exactly when a cheap trigger fires or no LLM trigger is configured.
  pub evaluate_transfer-no_calls :
      (digits : Digits) (turn_count : ℕ) (goal_achieved : Bool)
      → ((evaluate_transfer nums json_loads chat draw user_text config digits turn_count
            goal_achieved).calls
          ≡ [])
        ↔ (((evaluate_transfer_cheap digits draw user_text turn_count goal_achieved
                config).triggered
              ≡ true)
            ⊎ ((intent_asked nums json_loads chat draw user_text config ≡ none)
                × (config.llm_enabled ≡ false)))
  unfolding evaluate_transfer
  evaluate_transfer-no_calls digits turn_count goal_achieved =
      with_cheap (evaluate_transfer_cheap digits draw user_text turn_count goal_achieved config)

  -- When every call of the LLM fails, the LLM triggers end in no transfer, after one call for each
  -- of them that is configured.
  pub evaluate_transfer_llm-down :
      ((m : List Message) → chat m ≡ none)
      → evaluate_transfer_llm nums json_loads chat draw user_text config ≡ record {
        calls =
            (elim (intent_asked nums json_loads chat draw user_text config) [
              | none ↦ []
              | some t ↦ intent_messages nums json_loads user_text config ∷ []
            ])
            ++ (if config.llm_enabled
                then llm_messages nums json_loads user_text config ∷ []
                else []);
        result = answer no_transfer;
      }
  unfolding evaluate_transfer_llm
  evaluate_transfer_llm-down down = ground (
    arith,
    down (intent_messages nums json_loads user_text config),
    down (llm_messages nums json_loads user_text config),
  )

  -- An intent answer that is JSON but no object raises: the detector ends there, and the
  -- independent trigger is not asked even if it is configured.
  pub evaluate_transfer_llm-no_object :
      (threshold : nums.Number) (content : Text)
      → intent_asked nums json_loads chat draw user_text config ≡ some threshold
      → chat (intent_messages nums json_loads user_text config) ≡ some content
      → json_loads content ≡ no_object
      → evaluate_transfer_llm nums json_loads chat draw user_text config ≡ record {
        calls = intent_messages nums json_loads user_text config ∷ [];
        result = attribute_error;
      }
  unfolding evaluate_transfer_llm
  evaluate_transfer_llm-no_object threshold content asked replied bad = ground arith
