-- ===== src/Pipeline/Decider.antt =====
-- isales_engine/pipeline/decider.py: N referee categories and the ordered routing rules become one
-- action. A rule and its action are dicts whose keys may be missing.
pub mod Laws
mod Examples
use isales_engine.Prelude.{
  if◌then◌else◌, ◌==◌, nat_eq, text_eq, mem, Text, text, Dict, lookup, insert, Bool, false, Option,
  none, some, List, [], ◌∷◌,
}
use isales_engine.Streaming.Types.{RefereeResult, effective_category}

pub record RuleAction : Type 0 where
  pub kind : Option Text
  pub to : Option Text
  pub goal_type : Option Text
  pub then_state : Option Text
  pub tool : Option Text
  pub closing_phrase : Option Text

pub record RoutingRule : Type 0 where
  pub referee : Option Text
  pub matches : Option (List Text)
  pub action : Option RuleAction

pub data Kind : Type 0 where
  transition restructure continue route tool : Kind

pub record DeciderAction : Type 0 where
  pub kind : Kind
  pub to : Option Text
  pub goal_type : Option Text
  pub source : Option Text
  pub restructure_trigger : Option Text
  pub tool : Option Text
  pub then_state : Option Text
  pub closing_phrase : Option Text
  pub matched_rule : Option RoutingRule

-- `DeciderAction(kind="continue", matched_rule=…)`
abbrev pub resume : Option RoutingRule → DeciderAction
resume matched = record {
  kind = continue;
  to = none;
  goal_type = none;
  source = none;
  restructure_trigger = none;
  tool = none;
  then_state = none;
  closing_phrase = none;
  matched_rule = matched;
}

-- `{r.label: r.effective_category() for r in referee_results}`: the last result of a label wins.
collect : Dict Text (Option Text) → List RefereeResult → Dict Text (Option Text)
unfolding insert effective_category
collect found [] = found
collect found (r ∷ results) = collect (insert r.label (effective_category r) found) results

-- `categories.get(ref)`, `None` for a missing label and for a failed referee alike
category_of : Dict Text (Option Text) → Option Text → Option Text
unfolding lookup
category_of categories none = none
category_of categories (some label) = elim (lookup label categories) [
  | none ↦ none
  | some category ↦ category
]

-- `xs or []`
or_empty : Option (List Text) → List Text
or_empty none = []
or_empty (some xs) = xs

empty_action : RuleAction
empty_action = record {
  kind = none;
  to = none;
  goal_type = none;
  then_state = none;
  tool = none;
  closing_phrase = none;
}

-- `rule.get("action") or {}`
action_of : RoutingRule → RuleAction
unfolding empty_action
action_of rule = elim rule.action [ none ↦ empty_action | some action ↦ action ]

is_kind : Text → Option Text → Bool
is_kind name none = false
is_kind name (some kind) = kind == name

-- The action of the rule that matched.
unfoldable pub act : RoutingRule → DeciderAction
unfolding action_of is_kind
act rule =
    let action = action_of rule in
    if is_kind (text "transition") action.kind
    then record (resume (some rule)) {
      kind = transition;
      to = action.to;
      goal_type = action.goal_type;
    }
    else if is_kind (text "route") action.kind
    then record (resume (some rule)) {
      kind = route;
      to = action.to;
      goal_type = action.goal_type;
      then_state = action.then_state;
    }
    else if is_kind (text "tool") action.kind
    then record (resume (some rule)) {
      kind = tool;
      tool = action.tool;
      then_state = action.then_state;
      closing_phrase = action.closing_phrase;
    }
    else resume (some rule)

-- `for rule in routing_rules`
walk : Dict Text (Option Text) → List RoutingRule → DeciderAction
unfolding category_of or_empty
walk categories [] = resume none
walk categories (rule ∷ rules) = elim (category_of categories rule.referee) [
  | none ↦ walk categories rules
  | some category ↦
      let rest = walk categories rules in
      if mem category (or_empty rule.matches) then act rule else rest
]

unfoldable pub decide : List RefereeResult → List RoutingRule → DeciderAction
unfolding collect walk
decide referee_results routing_rules = walk (collect [] referee_results) routing_rules
