-- ===== src/Realtime/Transfer.antt =====
-- isales_engine/transfer/manager.py: the four triggers of a human handoff. The LLM and the numbers
-- of JSON (Python's int and float) are parameters. A call of the LLM is recorded, so that a theorem
-- can say which calls are made.
pub mod Cheap
pub mod Calls
mod Examples
use isales_engine.Realtime.Choice.{choice}
use isales_engine.Prelude.{
  leb, if◌then◌else◌, nat_eq, text_eq, Text, text, contains, non_empty, ℕ, Bool, true, false, not,
  ◌&&◌, Option, none, some, List, [], ◌∷◌, ◌++◌,
}

-- JSON numbers, their order, and what the program does with them.
pub record Numbers : Type 1 where
  pub Number : Type 0
  pub at_least : Number → Number → Bool  -- `prob >= threshold`
  pub of_bool : Bool → Number  -- `float(True)`, `float(False)`
  pub is_zero : Number → Bool
  pub two_decimals : Number → Text  -- `f"{prob:.2f}"`

-- A value under a key of a JSON object, as far as the program looks at it; `items` says whether an
-- array or object has any.
pub data Field (Number : Type 0) : Type 0 where
  missing null : Field Number
  boolean : Bool → Field Number
  number : Number → Field Number
  string : Text → Field Number
  items : Bool → Field Number

-- What `json.loads` makes of an answer: an error, a value that is no object, or an object.
pub data Loaded (Number : Type 0) : Type 0 where
  malformed no_object : Loaded Number
  object : (Text → Field Number) → Loaded Number

pub record Message : Type 0 where
  pub role : Text
  pub content : Text

pub record TransferConfig (Number : Type 0) : Type 0 where
  pub keyword_enabled : Bool
  pub keywords : List Text
  pub intent_enabled : Bool
  pub intent_threshold : Option Number
  pub intent_system_prompt : Text
  pub round_enabled : Bool
  pub round_threshold : Option ℕ
  pub llm_enabled : Bool
  pub llm_system_prompt : Text
  pub phrases : List Text

pub data Trigger : Type 0 where
  keyword intent round llm : Trigger

pub record TransferDecision : Type 0 where
  pub triggered : Bool
  pub trigger_type : Option Trigger
  pub trigger_detail : Text
  pub phrase : Text

unfoldable pub no_transfer : TransferDecision
no_transfer = record { triggered = false; trigger_type = none; trigger_detail = []; phrase = [] }

-- `random.choice(config.phrases) if config.phrases else ""`
handoff_phrase : ℕ → List Text → Text
unfolding choice
handoff_phrase draw [] = []
handoff_phrase draw (p ∷ ps) = choice draw p ps

unfoldable pub hit : ℕ → Trigger → Text → List Text → TransferDecision
unfolding handoff_phrase
hit draw trigger detail phrases = record {
  triggered = true;
  trigger_type = some trigger;
  trigger_detail = detail;
  phrase = handoff_phrase draw phrases;
}

-- The first keyword that is not empty and stands in the text.
unfoldable pub first_keyword : Text → List Text → Option Text
first_keyword user_text [] = none
first_keyword user_text (kw ∷ kws) =
    let rest = first_keyword user_text kws in
    if non_empty kw && contains kw user_text then some kw else rest

-- `turn_count={turn_count}`, the decimal digits being a parameter
abbrev pub Digits : Type 0
Digits = ℕ → Text

over_round : Option ℕ → ℕ → Bool
over_round none turn_count = false
over_round (some threshold) turn_count = leb threshold turn_count

module _ (digits : Digits) {Number : Type 0} where
  round_check : ℕ → ℕ → Bool → TransferConfig Number → TransferDecision
  unfolding hit over_round no_transfer
  round_check draw turn_count goal_achieved config =
      if config.round_enabled && (over_round config.round_threshold turn_count && not goal_achieved)
      then hit draw round (text "turn_count=" ++ digits turn_count) config.phrases
      else no_transfer

  unfoldable pub evaluate_transfer_cheap :
      ℕ → Text → ℕ → Bool → TransferConfig Number → TransferDecision
  unfolding round_check first_keyword hit
  evaluate_transfer_cheap draw user_text turn_count goal_achieved config =
      elim (if config.keyword_enabled then first_keyword user_text config.keywords else none) [
        | some kw ↦ hit draw keyword kw config.phrases
        | none ↦ round_check draw turn_count goal_achieved config
      ]

-- A result beside the calls of the LLM that were made for it. `attribute_error` is what
-- `parsed.get` raises for an answer that is JSON but no object; no handler here catches it.
pub data Answer (A : Type 0) : Type 0 where
  answer : A → Answer A
  attribute_error : Answer A

pub record Asked (A : Type 0) : Type 0 where
  pub calls : List (List Message)
  pub result : Answer A

module _ (nums : Numbers) (json_loads : Text → Loaded nums.Number) where
  -- `isinstance(prob, int | float)`, which holds of the booleans too
  probability_of : Field nums.Number → Option nums.Number
  probability_of missing = none
  probability_of null = none
  probability_of (boolean b) = some (nums.of_bool b)
  probability_of (number n) = some n
  probability_of (string s) = none
  probability_of (items b) = none

  -- `bool(parsed.get("transfer", False))`
  truthy : Field nums.Number → Bool
  truthy missing = false
  truthy null = false
  truthy (boolean b) = b
  truthy (number n) = not (nums.is_zero n)
  truthy (string s) = non_empty s
  truthy (items b) = b

  -- The answer to the intent call; `none` is a timeout or any error of `llm.chat`.
  read_intent : Option Text → Answer (Option nums.Number)
  unfolding probability_of
  read_intent none = answer none
  read_intent (some content) = elim (json_loads content) [
    | malformed ↦ answer none
    | no_object ↦ attribute_error
    | object fields ↦ answer (probability_of (fields (text "probability")))
  ]

  read_flag : Option Text → Answer Bool
  unfolding truthy
  read_flag none = answer false
  read_flag (some content) = elim (json_loads content) [
    | malformed ↦ answer false
    | no_object ↦ attribute_error
    | object fields ↦ answer (truthy (fields (text "transfer")))
  ]

  prompts : Text → Text → Text → List Message
  prompts tag system_prompt user_text =
      record { role = text "system"; content = tag ++ system_prompt }
      ∷ record { role = text "user"; content = user_text }
      ∷ []

  unfoldable pub intent_messages : Text → TransferConfig nums.Number → List Message
  unfolding prompts
  intent_messages user_text config =
      prompts (text "[transfer_intent] ") config.intent_system_prompt user_text

  unfoldable pub llm_messages : Text → TransferConfig nums.Number → List Message
  unfolding prompts
  llm_messages user_text config =
      prompts (text "[transfer_llm] ") config.llm_system_prompt user_text

  module _ (chat : List Message → Option Text) (draw : ℕ) (user_text : Text)
      (config : TransferConfig nums.Number) where
    by_flag : Answer Bool → Answer TransferDecision
    unfolding hit no_transfer
    by_flag attribute_error = attribute_error
    by_flag (answer flag) =
        answer (if flag then hit draw llm (text "transfer=true") config.phrases else no_transfer)

    -- 4) independent LLM
    independent : List (List Message) → Asked TransferDecision
    unfolding by_flag llm_messages read_flag no_transfer
    independent calls =
        if config.llm_enabled
        then record {
          calls = calls ++ llm_messages user_text config ∷ [];
          result = by_flag (read_flag (chat (llm_messages user_text config)));
        }
        else record { calls = calls; result = answer no_transfer }

    by_probability :
        nums.Number → List (List Message) → Answer (Option nums.Number) → Asked TransferDecision
    unfolding independent hit
    by_probability threshold calls attribute_error = record {
      calls = calls;
      result = attribute_error;
    }
    by_probability threshold calls (answer none) = independent calls
    by_probability threshold calls (answer (some prob)) =
        if nums.at_least prob threshold
        then record {
          calls = calls;
          result =
              answer
                (hit draw intent (text "probability=" ++ nums.two_decimals prob) config.phrases);
        }
        else independent calls

    -- `config.intent_enabled and config.intent_threshold is not None`
    unfoldable pub intent_asked : Option nums.Number
    intent_asked = if config.intent_enabled then config.intent_threshold else none

    unfoldable pub evaluate_transfer_llm : Asked TransferDecision
    unfolding by_probability independent intent_messages read_intent intent_asked
    evaluate_transfer_llm = elim intent_asked [
      | none ↦ independent []
      | some threshold ↦
          by_probability threshold (intent_messages user_text config ∷ [])
            (read_intent (chat (intent_messages user_text config)))
    ]

    unfoldable pub evaluate_transfer : Digits → ℕ → Bool → Asked TransferDecision
    unfolding evaluate_transfer_cheap evaluate_transfer_llm
    evaluate_transfer digits turn_count goal_achieved =
        let cheap = evaluate_transfer_cheap digits draw user_text turn_count goal_achieved config in
        if cheap.triggered
        then record { calls = []; result = answer cheap }
        else evaluate_transfer_llm
