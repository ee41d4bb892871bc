-- ===== src/Realtime/InterruptionRules/Building.antt =====
-- Assembling a tree from its configuration.
use isales_engine.Realtime.InterruptionRules.{
  Regex, Rule, Rules, keyword, length_rule, duration, regex, split_by_delimiter, none_rule,
  and_rule, or_rule, not_rule, nil, cons, Config, dict, no_rules, rules, Configs, end, more,
  no_rule, rule, LeafKeys, ok, build_rule, build_all,
}
use isales_engine.Prelude.{nat_eq, text_eq, Text, text, ◌≡◌, refl, none, some, arith}

abbrev no_keys : LeafKeys
no_keys = record {
  values = none;
  match = none;
  value = none;
  value_ms = none;
  pattern = none;
  delimiters = none;
}

-- `source p` is the text that the pattern was compiled from.
module _ (re : Regex) (source : re.Pattern → Text) where
  leaf : Text → LeafKeys → Config
  leaf kind keys = dict (some kind) keys no_rules no_rule

  mutual
    unfolding leaf

    -- The dict that describes a tree.
    pub describe : Rule re.Pattern → Config
    describe (keyword values match) =
        leaf (text "keyword") (record no_keys { values = some values; match = some match })
    describe (length_rule value) = leaf (text "length") (record no_keys { value = some value })
    describe (duration value_ms) =
        leaf (text "duration") (record no_keys { value_ms = some value_ms })
    describe (regex p) = leaf (text "regex") (record no_keys { pattern = some (source p) })
    describe (split_by_delimiter ds) =
        leaf (text "split_by_delimiter") (record no_keys { delimiters = some ds })
    describe none_rule = leaf (text "none") no_keys
    describe (and_rule rs) = dict (some (text "and")) no_keys (rules (describe_all rs)) no_rule
    describe (or_rule rs) = dict (some (text "or")) no_keys (rules (describe_all rs)) no_rule
    describe (not_rule r) = dict (some (text "not")) no_keys no_rules (rule (describe r))

    describe_all : Rules re.Pattern → Configs
    describe_all nil = end
    describe_all (cons r rs) = more (describe r) (describe_all rs)

  module _ (recompiles : (p : re.Pattern) → re.compile (source p) ≡ some p) where
    mutual
      unfolding build_rule describe

      built : (r : Rule re.Pattern) → build_rule re (describe r) ≡ ok r
      built (keyword values match) = refl
      built (length_rule value) = refl
      built (duration value_ms) = refl
      built (regex p) = ground (arith, recompiles p)
      built (split_by_delimiter ds) = refl
      built none_rule = refl
      built (and_rule rs) = ground (arith, built_all rs)
      built (or_rule rs) = ground (arith, built_all rs)
      built (not_rule r) = ground (arith, built r)

      built_all : (rs : Rules re.Pattern) → build_all re (describe_all rs) ≡ ok rs
      built_all nil = refl
      built_all (cons r rs) = ground (arith, built r, built_all rs)

    -- Every tree is what its description builds to, at any depth, where a pattern's source compiles
    -- to the pattern again.
    pub build_rule-describe : (r : Rule re.Pattern) → build_rule re (describe r) ≡ ok r
    build_rule-describe r = built r
