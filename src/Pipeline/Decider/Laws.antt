-- ===== src/Pipeline/Decider/Laws.antt =====
-- First match wins, stated by what the referees last reported.
use isales_engine.Prelude.{
  if◌then◌else◌, Bool-cases, All, ◌==◌, nat_eq, text_eq, mem, Text, Dict, lookup-insert, lookup,
  insert, ◌≡◌, refl, ap, ◌≢◌, ◌↔◌, inl, inr, Bool, true, false, Option, none, some, List, [], ◌∷◌,
  ◌++◌, arith,
}
use isales_engine.Streaming.Types.{RefereeResult, effective_category}
use isales_engine.Pipeline.Decider.{
  RoutingRule, DeciderAction, restructure, resume, collect, category_of, or_empty, act, walk,
  decide,
}

-- The last category that a referee of this label gave, `none` if it failed or there is none.
abbrev pub reported : Text → List RefereeResult → Option (Option Text)
reported label [] = none
reported label (r ∷ results) = elim (reported label results) [
  | some category ↦ some category
  | none ↦ if r.label == label then some r.category else none
]

-- The rule names a referee whose last category is one that the rule lists.
pub record Fires (results : List RefereeResult) (rule : RoutingRule) : Type 0 where
  pub label : Text
  pub category : Text
  pub listed : List Text
  pub by_referee : rule.referee ≡ some label
  pub given : reported label results ≡ some (some category)
  pub lists : rule.matches ≡ some listed
  pub is_listed : mem category listed ≡ true

lookup-collect :
    (label : Text) (found : Dict Text (Option Text)) (results : List RefereeResult)
    → lookup label (collect found results)
      ≡ elim (reported label results) [ some category ↦ some category | none ↦ lookup label found ]
unfolding collect effective_category
lookup-collect label found [] = refl
lookup-collect label found (r ∷ results) = ground (
  arith,
  lookup-collect label (insert r.label r.category found) results,
  lookup-insert r.label label r.category found,
)

module _ (results : List RefereeResult) where
  -- The test that the walk makes.
  abbrev tested : RoutingRule → Bool
  tested rule = elim (category_of (collect [] results) rule.referee) [
    | none ↦ false
    | some category ↦ mem category (or_empty rule.matches)
  ]

  Fires→tested : (rule : RoutingRule) → Fires results rule → tested rule ≡ true
  unfolding category_of or_empty lookup
  Fires→tested rule f = ground (arith, lookup-collect f.label [] results)

  -- The test on the parts of a rule.
  tested_parts :
      (rule : RoutingRule) (referee : Option Text) (listed : Option (List Text))
      → rule.referee ≡ referee
      → rule.matches ≡ listed
      → (elim (category_of (collect [] results) referee) [
        | none ↦ false
        | some category ↦ mem category (or_empty listed)
      ])
        ≡ true
      → Fires results rule
  unfolding category_of or_empty lookup
  tested_parts rule none listed p q h = cc
  tested_parts rule (some label) none p q h = ground (arith, lookup-collect label [] results)
  tested_parts rule (some label) (some listed) p q h = go (reported label results) refl
    where
      go : (given : Option (Option Text)) → reported label results ≡ given → Fires results rule
      go (some (some category)) e = record {
        label = label;
        category = category;
        listed = listed;
        by_referee = p;
        given = e;
        lists = q;
        is_listed = ground (arith, lookup-collect label [] results);
      }
      go (some none) e = absurd (ground (arith, lookup-collect label [] results))
      go none e = absurd (ground (arith, lookup-collect label [] results))

  tested→Fires : (rule : RoutingRule) → tested rule ≡ true → Fires results rule
  tested→Fires rule h = tested_parts rule rule.referee rule.matches refl refl h

  walk-Fires :
      (pre post : List RoutingRule) (rule : RoutingRule)
      → All (λ r. ¬ Fires results r) pre
      → Fires results rule
      → walk (collect [] results) (pre ++ rule ∷ post) ≡ act rule
  unfolding walk
  walk-Fires [] post rule none_before f = ground (arith, Fires→tested rule f)
  walk-Fires (r ∷ pre) post rule none_before f = elim (Bool-cases (tested r)) [
    | inl fired ↦ absurd (none_before.0 (tested→Fires r fired))
    | inr skipped ↦ ground (arith, walk-Fires pre post rule none_before.1 f)
  ]

  walk-silent :
      (rules : List RoutingRule)
      → All (λ r. ¬ Fires results r) rules
      → walk (collect [] results) rules ≡ resume none
  unfolding walk
  walk-silent [] h = refl
  walk-silent (r ∷ rules) h = elim (Bool-cases (tested r)) [
    | inl fired ↦ absurd (h.0 (tested→Fires r fired))
    | inr skipped ↦ ground (arith, walk-silent rules h.1)
  ]

  act-matched : (rule : RoutingRule) → act rule ≢ resume none
  unfolding act
  act-matched rule h = ground (arith, ap (λ (a : DeciderAction). a.matched_rule) h)

  silent-walk :
      (rules : List RoutingRule)
      → walk (collect [] results) rules ≡ resume none
      → All (λ r. ¬ Fires results r) rules
  unfolding walk
  silent-walk [] h = tt
  silent-walk (r ∷ rules) h = elim (Bool-cases (tested r)) [
    | inl fired ↦ absurd (act-matched r (ground arith))
    | inr skipped ↦ (λ f. cc (Fires→tested r f), silent-walk rules (ground arith))
  ]

  -- The first rule that fires decides alone: the rules behind it have no influence.
  pub decide-first_match :
      (pre post : List RoutingRule) (rule : RoutingRule)
      → All (λ r. ¬ Fires results r) pre
      → Fires results rule
      → decide results (pre ++ rule ∷ post) ≡ act rule
  unfolding decide
  decide-first_match pre post rule h f = walk-Fires pre post rule h f

  -- A decision to go on with no matched rule is made exactly when no rule fires.
  pub decide-unmatched :
      (rules : List RoutingRule)
      → (decide results rules ≡ resume none) ↔ All (λ r. ¬ Fires results r) rules
  unfolding decide
  decide-unmatched rules = (silent-walk rules, walk-silent rules)

  -- `restructure` is never a decision of the routing rules.
  pub decide-ne_restructure : (rules : List RoutingRule) → (decide results rules).kind ≢ restructure
  unfolding decide walk act
  decide-ne_restructure [] h = cc
  decide-ne_restructure (r ∷ rs) h = ground (arith, decide-ne_restructure rs)
