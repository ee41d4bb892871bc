-- ===== src/Realtime/InterruptionRules.antt =====
-- isales_engine/realtime/interruption_rules.py and interruption_detector.py: the barge-in rule
-- tree. Python's `re` is the parameter `Regex`; integers are ℤ.
pub mod Verdicts
pub mod Building
pub mod Legacy
mod Examples
use isales_engine.Prelude.Int.{ℤ, pos, negsuc, ◌-ℤ◌, leb_ℤ, sub_ℕ}
use isales_engine.Prelude.{
  if◌then◌else◌, length, any, drop_while_end, ◌==◌, nat_eq, text_eq, mem, Text, text, strip,
  contains, non_empty, Bool, true, false, not, ◌&&◌, Option, none, some, List, [], ◌∷◌, ◌++◌,
}

-- `re.compile`, which may refuse the pattern, and `search(text) is not None`.
pub record Regex : Type 1 where
  pub Pattern : Type 0
  pub compile : Text → Option Pattern
  pub search : Pattern → Text → Bool

pub record RuleInput : Type 0 where
  pub text : Text
  pub elapsed_ms : ℤ

pub record RuleVerdict : Type 0 where
  pub interrupt : Bool
  pub reason : Text

abbrev pub trailing_punct : Text
trailing_punct = text "。，！？、；,.!?;"

mutual
  pub data Rule (Pattern : Type 0) : Type 0 where
    -- the values and the `match` mode
    keyword : List Text → Text → Rule Pattern
    length_rule : ℤ → Rule Pattern
    duration : ℤ → Rule Pattern
    regex : Pattern → Rule Pattern
    split_by_delimiter : List Text → Rule Pattern
    none_rule : Rule Pattern
    and_rule : Rules Pattern → Rule Pattern
    or_rule : Rules Pattern → Rule Pattern
    not_rule : Rule Pattern → Rule Pattern

  pub data Rules (Pattern : Type 0) : Type 0 where
    nil : Rules Pattern
    cons : Rule Pattern → Rules Pattern → Rules Pattern

-- `KeywordRule.evaluate`
unfoldable pub keyword_hit : List Text → Text → Text → Bool
keyword_hit values match said =
    let t = drop_while_end (λ c. mem c trailing_punct) (strip said) in
    if match == text "exact"
    then mem (strip said) values
    else non_empty t && any (λ v. contains v t) values

-- `len(ctx.text.strip()) >= self.value`
unfoldable pub long_enough : ℤ → Text → Bool
long_enough value said = leb_ℤ value (pos (length (strip said)))

unfoldable pub verdict : Bool → Text → RuleVerdict
verdict interrupt reason = record { interrupt = interrupt; reason = reason }

module _ (re : Regex) where
  unfoldable mutual
    unfolding keyword_hit long_enough verdict

    pub evaluate : Rule re.Pattern → RuleInput → RuleVerdict
    evaluate (keyword values match) ctx =
        verdict (keyword_hit values match ctx.text) (text "keyword")
    evaluate (length_rule value) ctx = verdict (long_enough value ctx.text) (text "length")
    evaluate (duration value_ms) ctx = verdict (leb_ℤ value_ms ctx.elapsed_ms) (text "duration")
    evaluate (regex pattern) ctx = verdict (re.search pattern ctx.text) (text "regex")
    evaluate (split_by_delimiter delimiters) ctx =
        verdict (any (λ d. contains d ctx.text) delimiters) (text "split_by_delimiter")
    evaluate none_rule ctx = verdict false (text "none")
    evaluate (and_rule rules) ctx = evaluate_all rules ctx
    evaluate (or_rule rules) ctx = evaluate_any rules ctx
    evaluate (not_rule rule) ctx =
        let v = evaluate rule ctx in
        verdict (not v.interrupt) (text "not(" ++ (v.reason ++ text ")"))

    -- the loop of `AndRule.evaluate`
    pub evaluate_all : Rules re.Pattern → RuleInput → RuleVerdict
    evaluate_all nil ctx = verdict true (text "and")
    evaluate_all (cons rule rules) ctx =
        let v = evaluate rule ctx in
        let rest = evaluate_all rules ctx in if v.interrupt then rest else verdict false v.reason

    -- the loop of `OrRule.evaluate`
    pub evaluate_any : Rules re.Pattern → RuleInput → RuleVerdict
    evaluate_any nil ctx = verdict false (text "or")
    evaluate_any (cons rule rules) ctx =
        let v = evaluate rule ctx in
        let rest = evaluate_any rules ctx in if v.interrupt then verdict true v.reason else rest

-- What assembling a rule raises: `ValueError`, `KeyError`, `re.error`.
pub data BuildError : Type 0 where
  value_error key_error pattern_error : BuildError

pub data Built (A : Type 0) : Type 0 where
  ok : A → Built A
  err : BuildError → Built A

infixl 5 ◌>>=◌
abbrev pub ◌>>=◌ : {A B : Type 0} → Built A → (A → Built B) → Built B
ok a >>= f = f a
err e >>= f = err e

-- The keys of a leaf's dict, each with the type that the write side admits, or missing.
pub record LeafKeys : Type 0 where
  pub values : Option (List Text)
  pub match : Option Text
  pub value : Option ℤ
  pub value_ms : Option ℤ
  pub pattern : Option Text
  pub delimiters : Option (List Text)

-- `campaign.interruption_rules`: `None`, a value that is no dict, or a dict by its `type`, its
-- leaf keys and its keys `rules` and `rule`.
mutual
  pub data Config : Type 0 where
    absent : Config
    not_a_dict : Config
    dict : Option Text → LeafKeys → Children → Child → Config

  pub data Children : Type 0 where
    no_rules : Children
    rules : Configs → Children

  pub data Configs : Type 0 where
    end : Configs
    more : Config → Configs → Configs

  pub data Child : Type 0 where
    no_rule : Child
    rule : Config → Child

-- `config[…]`
key : {A : Type 0} → Option A → Built A
key none = err key_error
key (some a) = ok a

-- `config.get("match", "contains")`
match_mode : Option Text → Text
match_mode none = text "contains"
match_mode (some match) = match

module _ (re : Regex) where
  compiled : Text → Built re.Pattern
  compiled source = elim (re.compile source) [ none ↦ err pattern_error | some p ↦ ok p ]

  -- The `if` ladder over `config["type"]`, given what the keys `rules` and `rule` build to.
  by_type :
      Text → LeafKeys → Built (Rules re.Pattern) → Built (Rule re.Pattern) → Built (Rule re.Pattern)
  unfolding key match_mode compiled
  by_type kind leaf parts part =
      if kind == text "none"
      then ok none_rule
      else if kind == text "keyword"
      then (do values ← key leaf.values; ok (keyword values (match_mode leaf.match)))
      else if kind == text "length"
      then (do value ← key leaf.value; ok (length_rule value))
      else if kind == text "duration"
      then (do value ← key leaf.value_ms; ok (duration value))
      else if kind == text "regex"
      then (do source ← key leaf.pattern; p ← compiled source; ok (regex p))
      else if kind == text "split_by_delimiter"
      then (do ds ← key leaf.delimiters; ok (split_by_delimiter ds))
      else if kind == text "and"
      then (do rs ← parts; ok (and_rule rs))
      else if kind == text "or"
      then (do rs ← parts; ok (or_rule rs))
      else if kind == text "not"
      then (do r ← part; ok (not_rule r))
      else err value_error

  unfoldable mutual
    unfolding by_type

    pub build_rule : Config → Built (Rule re.Pattern)
    build_rule absent = ok none_rule
    build_rule not_a_dict = err value_error
    build_rule (dict none leaf children child) = err value_error
    build_rule (dict (some kind) leaf children child) =
        let parts = build_children children in
        let part = build_child child in by_type kind leaf parts part

    build_children : Children → Built (Rules re.Pattern)
    build_children no_rules = err key_error
    build_children (rules configs) = build_all configs

    build_all : Configs → Built (Rules re.Pattern)
    build_all end = ok nil
    build_all (more config configs) = do
      r ← build_rule config
      rs ← build_all configs
      ok (cons r rs)

    build_child : Child → Built (Rule re.Pattern)
    build_child no_rule = err key_error
    build_child (rule config) = build_rule config

-- `NotRule(KeywordRule(tuple(whitelist), "exact"))`, left out for an empty whitelist
whitelist_rules : {Pattern : Type 0} → List Text → Rules Pattern → Rules Pattern
whitelist_rules [] rest = rest
whitelist_rules (w ∷ ws) rest = cons (not_rule (keyword (w ∷ ws) (text "exact"))) rest

unfoldable pub default_rule : {Pattern : Type 0} → List Text → ℤ → ℤ → Rule Pattern
unfolding whitelist_rules
default_rule whitelist min_text_length min_duration_ms = and_rule (
    whitelist_rules whitelist
      (cons (length_rule min_text_length) (cons (duration min_duration_ms) nil)))

pub data Verdict : Type 0 where
  ignored triggered : Verdict

pub record InterruptionVerdict : Type 0 where
  pub verdict : Verdict
  pub reason : Text

-- `evaluate_partial` of interruption_detector.py
unfoldable pub evaluate_partial :
    (re : Regex) → Text → ℤ → ℤ → Rule re.Pattern → InterruptionVerdict
unfolding evaluate
evaluate_partial re said speech_started_ts_ms now_ts_ms tree =
    let v =
      evaluate re tree (record { text = said; elapsed_ms = now_ts_ms -ℤ speech_started_ts_ms }) in
    record { verdict = if v.interrupt then triggered else ignored; reason = v.reason }
