-- ===== src/RunLoop/Selection.antt =====
-- isales_engine/run_loop.py: how a decision of the referees becomes the one route of a turn, with
-- the helpers that read the session to decide: the fan-out's candidates, the gate of the
-- restructure, the text to voice again, and the protection against repeated interruptions.
use isales_engine.RunLoop.{Call, Persona, PipelineConfig, Config, not_a_dict, tool_dict}
use isales_engine.CallSession.{assistant, user, DialogTurn}
use isales_engine.Pipeline.Decider.{DeciderAction, Kind, resume}
use isales_engine.Streaming.Types.{RefereeResult, effective_category}
use isales_engine.Prelude.Int.{ℤ, pos, negsuc}
use isales_engine.Prelude.{
  ltb, if◌then◌else◌, take, any, nat_eq, text_eq, ◌==◌, Text, text, strip, non_empty, Dict, lookup,
  insert, ℕ, ◌-◌, min, max, Bool, true, false, ◌&&◌, Option, none, some, List, [], ◌∷◌, ◌++◌,
  reverse,
}

pub data RouteKind : Type 0 where
  dialogue tool : RouteKind

pub data ToolType : Type 0 where
  hangup transfer : ToolType

pub record GatedSelection : Type 0 where
  pub route_id : Text
  pub kind : RouteKind
  pub then_state : Option Text
  pub goal_type : Text
  pub source : Option Text
  pub restructure_trigger : Option Text
  pub tool_type : Option ToolType
  pub tool_closing_phrase : Option Text  -- `tool_config["closing_phrase"]`
  pub closing_phrase : Option Text

-- A dialogue route with the defaults of the other fields.
unfoldable pub dialogue_route : Text → GatedSelection
dialogue_route route_id = record {
  route_id = route_id;
  kind = RouteKind.dialogue;
  then_state = none;
  goal_type = [];
  source = none;
  restructure_trigger = none;
  tool_type = none;
  tool_closing_phrase = none;
  closing_phrase = none;
}

-- `value or default` of a text that may be missing
unfoldable pub or_else : Option Text → Text → Text
or_else none default = default
or_else (some []) default = default
or_else (some (c ∷ cs)) default = c ∷ cs

unfoldable pub tool_type_of : Option Text → Option ToolType
tool_type_of none = none
tool_type_of (some kind) =
    if kind == text "hangup"
    then some hangup
    else if kind == text "transfer"
    then some transfer
    else none

unfoldable pub ends_in : ToolType → Text
ends_in hangup = text "END"
ends_in transfer = text "TRANSFERRING"

unfoldable pub is_persona : Text → List Persona → Bool
is_persona to personas = any (λ p. p.label == to) personas

module _ (config : PipelineConfig) where
  -- `config.pipeline.referee_fail_open_route or "main"`
  unfoldable pub fail_open_route : Text
  unfolding or_else
  fail_open_route = or_else (some config.referee_fail_open_route) (text "main")

  unfoldable pub tool_route : Text → Option Text → Option Text → GatedSelection
  unfolding fail_open_route tool_type_of ends_in dialogue_route or_else lookup
  tool_route alias then_state closing_phrase = elim (lookup alias config.tools) [
    | none ↦ dialogue_route fail_open_route
    | some not_a_dict ↦ dialogue_route fail_open_route
    | some (tool_dict kind phrase) ↦ elim (tool_type_of kind) [
      | none ↦ dialogue_route fail_open_route
      | some known ↦ record (dialogue_route (text "tool:" ++ alias)) {
        kind = RouteKind.tool;
        then_state = some (or_else then_state (ends_in known));
        tool_type = some known;
        tool_closing_phrase = phrase;
        closing_phrase = closing_phrase;
      }
    ]
  ]

  unfoldable pub transition_route : DeciderAction → GatedSelection
  unfolding fail_open_route dialogue_route or_else
  transition_route action =
      let to = or_else action.to [] in
      if to == text "goal_achieved"
      then record (dialogue_route (text "closing")) {
        then_state = some (text "WRAPPING_UP");
        goal_type = or_else action.goal_type [];
      }
      else if to == text "transfer"
      then record (dialogue_route (text "tool:transfer")) {
        kind = RouteKind.tool;
        then_state = some (text "TRANSFERRING");
        tool_type = some transfer;
      }
      else if to == text "customer_decline"
      then record (dialogue_route (text "recovery")) { then_state = some (text "ACTIVATING") }
      else dialogue_route fail_open_route

  unfoldable pub builtin_route : Text → Text → DeciderAction → GatedSelection
  unfolding dialogue_route or_else
  builtin_route to builtin_then action = record (dialogue_route to) {
    then_state = some (or_else action.then_state builtin_then);
    goal_type = or_else action.goal_type [];
  }

  unfoldable pub dialogue_target : DeciderAction → GatedSelection
  unfolding fail_open_route dialogue_route or_else is_persona builtin_route
  dialogue_target action =
      let to = or_else action.to [] in
      if to == text "closing"
      then builtin_route to (text "WRAPPING_UP") action
      else if to == text "recovery"
      then builtin_route to (text "ACTIVATING") action
      else if is_persona to config.personas
      then record (dialogue_route (text "persona:" ++ to)) { then_state = action.then_state }
      else dialogue_route fail_open_route

  unfoldable pub select_gated_route : DeciderAction → GatedSelection
  unfolding fail_open_route dialogue_route or_else tool_route transition_route dialogue_target
  select_gated_route action = elim action.kind [
    | Kind.transition ↦ transition_route action
    | Kind.restructure ↦ record (dialogue_route (text "restructure")) {
      then_state = some (text "LISTENING");
      source = action.source;
      restructure_trigger = action.restructure_trigger;
    }
    | Kind.route ↦ dialogue_target action
    | Kind.tool ↦ tool_route (or_else action.tool []) action.then_state action.closing_phrase
    | Kind.continue ↦ dialogue_route fail_open_route
  ]

  -- `max(1, min(3, persona_fanout_cap))`
  unfoldable pub fanout : ℤ → ℕ
  fanout (pos n) = max 1 (min 3 n)
  fanout (negsuc n) = 1

  -- The routes whose replies are generated while the gate is awaited: the main one and the personas
  -- within the cap. A label that occurs twice keeps its place, with the later persona.
  add_personas : List Persona → Dict Text (Option Persona) → Dict Text (Option Persona)
  unfolding insert
  add_personas [] routes = routes
  add_personas (p ∷ ps) routes =
      add_personas ps (insert (text "persona:" ++ p.label) (some p) routes)

  unfoldable pub candidates : Dict Text (Option Persona)
  unfolding fanout add_personas
  candidates =
      add_personas (take (fanout config.persona_fanout_cap - 1) config.personas)
        ((text "main", none) ∷ [])

  -- `gate_filler`
  unfoldable pub gate_filler : List RefereeResult → Bool
  unfolding effective_category
  gate_filler results =
      any
        (λ r. elim (effective_category r) [
          | none ↦ false
          | some category ↦ category == config.restructure_gate_category
        ])
        results

unfoldable pub has_text : Option Text → Bool
has_text none = false
has_text (some t) = non_empty t

unfoldable pub is_continue : Kind → Bool
is_continue Kind.continue = true
is_continue Kind.transition = false
is_continue Kind.restructure = false
is_continue Kind.route = false
is_continue Kind.tool = false

unfoldable pub is_some {ℓ} : {A : Type ℓ} → Option A → Bool
is_some none = false
is_some (some a) = true

-- The automatic restructure of an interrupted reply.
unfoldable pub resume_reply : DeciderAction
resume_reply = record (resume none) {
  kind = Kind.restructure;
  source = some (text "interrupt_remaining");
  restructure_trigger = some (text "interrupt_remaining");
}

unfoldable pub resumes : PipelineConfig → List RefereeResult → DeciderAction → Call → Bool
unfolding gate_filler is_continue is_some has_text
resumes config results action c =
    gate_filler config results
    && (is_continue action.kind
        && (config.auto_restructure_on_interrupt
            && (is_some config.restructure && has_text c.interrupt_remaining_text)))

-- the last utterance of the assistant that has text
unfoldable pub last_reply : List DialogTurn → Option Text
last_reply [] = none
last_reply (turn ∷ earlier) =
    let rest = last_reply earlier in
    elim turn.role [
      | user ↦ rest
      | assistant ↦ if non_empty (strip turn.text) then some turn.text else rest
    ]

-- `_assemble_interrupt_text`: the text, and the session with the remainder taken.
unfoldable pub assemble_interrupt_text : Option Text → Call → Option Text × Call
unfolding last_reply or_else
assemble_interrupt_text source c =
    let latest = last_reply (reverse c.session.dialog_history) in
    if or_else source [] == text "interrupt_remaining"
    then (let c' = record c { interrupt_remaining_text = none } in
        if non_empty (strip (or_else c.interrupt_remaining_text []))
        then (c.interrupt_remaining_text, c')
        else (latest, c'))
    else (latest, c)

pub data Protection : Type 0 where
  unprotected listen_only short_reply : Protection

unfoldable pub decide_protection :
    {Pattern Number : Type 0} → Config Pattern Number → Call → Protection
decide_protection config c =
    if ltb c.consecutive_interruption_count config.max_continuous_interruptions
    then unprotected
    else if config.listen_only_strategy
    then listen_only
    else short_reply
