-- ===== src/Realtime/InterruptionRules/Verdicts.antt =====
-- The short-circuit loops against the logical reading of a rule tree.
use isales_engine.Realtime.InterruptionRules.{
  Regex, RuleInput, RuleVerdict, verdict, Rule, Rules, keyword, length_rule, duration, regex,
  split_by_delimiter, none_rule, and_rule, or_rule, not_rule, nil, cons, evaluate, evaluate_all,
  evaluate_any, keyword_hit, long_enough,
}
use isales_engine.Prelude.Int.{ℤ, pos, leb_ℤ, ◌≤ℤ◌}
use isales_engine.Prelude.{
  if◌then◌else◌, Bool-cases, length, any, nat_eq, text_eq, Text, strip, contains, ◌≡◌, refl, ◌↔◌,
  ◌⊎◌, inl, inr, Bool, true, false, not, arith,
}

module _ (re : Regex) where
  -- A tree as a formula: composites are conjunction, disjunction and negation.
  mutual
    pub Holds : Rule re.Pattern → RuleInput → Type 0
    Holds (keyword values match) ctx = keyword_hit values match ctx.text ≡ true
    Holds (length_rule value) ctx = value ≤ℤ pos (length (strip ctx.text))
    Holds (duration value_ms) ctx = value_ms ≤ℤ ctx.elapsed_ms
    Holds (regex pattern) ctx = re.search pattern ctx.text ≡ true
    Holds (split_by_delimiter delimiters) ctx = any (λ d. contains d ctx.text) delimiters ≡ true
    Holds none_rule ctx = ⊥
    Holds (and_rule rules) ctx = HoldsAll rules ctx
    Holds (or_rule rules) ctx = HoldsAny rules ctx
    Holds (not_rule rule) ctx = ¬ Holds rule ctx

    pub HoldsAll : Rules re.Pattern → RuleInput → Type 0
    HoldsAll nil ctx = Unit
    HoldsAll (cons rule rules) ctx = Holds rule ctx × HoldsAll rules ctx

    pub HoldsAny : Rules re.Pattern → RuleInput → Type 0
    HoldsAny nil ctx = ⊥
    HoldsAny (cons rule rules) ctx = Holds rule ctx ⊎ HoldsAny rules ctx

-- The verdict's flag decides the statement.
abbrev Decides : Bool → Type 0 → Type 0
Decides true P = P
Decides false P = ¬ P

module _ (P Q : Type 0) where
  -- one round of the `and` loop
  Decides_and :
      (b : Bool) (reason : Text) (rest : RuleVerdict)
      → Decides b P
      → Decides rest.interrupt Q
      → Decides (if b then rest else verdict false reason).interrupt (P × Q)
  unfolding verdict
  Decides_and false reason rest p q = λ h. p h.0
  Decides_and true reason rest p q = both rest.interrupt q
    where
      both : (c : Bool) → Decides c Q → Decides c (P × Q)
      both true q = (p, q)
      both false q = λ h. q h.1

  -- one round of the `or` loop
  Decides_or :
      (b : Bool) (reason : Text) (rest : RuleVerdict)
      → Decides b P
      → Decides rest.interrupt Q
      → Decides (if b then verdict true reason else rest).interrupt (P ⊎ Q)
  unfolding verdict
  Decides_or true reason rest p q = inl p
  Decides_or false reason rest p q = either rest.interrupt q
    where
      either : (c : Bool) → Decides c Q → Decides c (P ⊎ Q)
      either true q = inr q
      either false q = λ h. elim h [ inl x ↦ p x | inr y ↦ q y ]

module _ (P : Type 0) where
  Decides_not : (a : Bool) → Decides a P → Decides (not a) (¬ P)
  Decides_not true p = λ n. n p
  Decides_not false n = n

  Decides_iff : (a : Bool) → Decides a P → (a ≡ true) ↔ P
  Decides_iff true p = (λ _. p, λ _. refl)
  Decides_iff false n = (λ h. cc, λ p. absurd (n p))

Decides_test : (b : Bool) → Decides b (b ≡ true)
Decides_test true = refl
Decides_test false = λ h. cc

Decides_of_iff : (b : Bool) (P : Type 0) → (b ≡ true → P) → (P → b ≡ true) → Decides b P
Decides_of_iff true P f g = f refl
Decides_of_iff false P f g = λ p. cc (g p)

Decides_leb : (a b : ℤ) → Decides (leb_ℤ a b) (a ≤ℤ b)
Decides_leb a b = Decides_of_iff (leb_ℤ a b) (a ≤ℤ b) (λ h. ground arith) (λ h. ground arith)

module _ (re : Regex) (ctx : RuleInput) where
  mutual
    unfolding evaluate Holds long_enough verdict

    decides : (r : Rule re.Pattern) → Decides (evaluate re r ctx).interrupt (Holds re r ctx)
    decides (keyword values match) = Decides_test (keyword_hit values match ctx.text)
    decides (length_rule value) = Decides_leb value (pos (length (strip ctx.text)))
    decides (duration value_ms) = Decides_leb value_ms ctx.elapsed_ms
    decides (regex pattern) = Decides_test (re.search pattern ctx.text)
    decides (split_by_delimiter delimiters) =
        Decides_test (any (λ d. contains d ctx.text) delimiters)
    decides none_rule = λ h. h
    decides (and_rule rules) = decides_all rules
    decides (or_rule rules) = decides_any rules
    decides (not_rule rule) =
        Decides_not (Holds re rule ctx) (evaluate re rule ctx).interrupt (decides rule)

    decides_all :
        (rs : Rules re.Pattern) → Decides (evaluate_all re rs ctx).interrupt (HoldsAll re rs ctx)
    decides_all nil = tt
    decides_all (cons r rs) =
        Decides_and (Holds re r ctx) (HoldsAll re rs ctx) (evaluate re r ctx).interrupt
          (evaluate re r ctx).reason (evaluate_all re rs ctx) (decides r) (decides_all rs)

    decides_any :
        (rs : Rules re.Pattern) → Decides (evaluate_any re rs ctx).interrupt (HoldsAny re rs ctx)
    decides_any nil = λ h. h
    decides_any (cons r rs) =
        Decides_or (Holds re r ctx) (HoldsAny re rs ctx) (evaluate re r ctx).interrupt
          (evaluate re r ctx).reason (evaluate_any re rs ctx) (decides r) (decides_any rs)

  -- A tree interrupts exactly when it holds as a formula over its leaves: the early exits of the
  -- `and` and `or` loops do not change the outcome.
  pub evaluate-Holds :
      (r : Rule re.Pattern) → ((evaluate re r ctx).interrupt ≡ true) ↔ Holds re r ctx
  evaluate-Holds r = Decides_iff (Holds re r ctx) (evaluate re r ctx).interrupt (decides r)

  -- The first rule of the list that does not interrupt, with its reason; those before it do.
  pub data FirstRefusal : Rules re.Pattern → Text → Type 0 where
    here :
        {r : Rule re.Pattern} {rs : Rules re.Pattern} {reason : Text}
        → evaluate re r ctx ≡ verdict false reason
        → FirstRefusal (cons r rs) reason
    later :
        {r : Rule re.Pattern} {rs : Rules re.Pattern} {reason : Text}
        → (evaluate re r ctx).interrupt ≡ true
        → FirstRefusal rs reason
        → FirstRefusal (cons r rs) reason

  evaluate_all-refusal :
      (rs : Rules re.Pattern)
      → (evaluate_all re rs ctx).interrupt ≡ false
      → FirstRefusal rs (evaluate_all re rs ctx).reason
  unfolding evaluate verdict
  evaluate_all-refusal nil h = cc
  evaluate_all-refusal (cons r rs) h = elim (Bool-cases (evaluate re r ctx).interrupt) [
    | inl fired ↦ later fired (ground (arith, evaluate_all-refusal rs))
    | inr refused ↦ here (ground arith)
  ]

  -- An `and` that does not interrupt reports the reason of its first part that does not, and all
  -- parts before that one interrupt.
  pub evaluate-and_reason :
      (rs : Rules re.Pattern)
      → (evaluate re (and_rule rs) ctx).interrupt ≡ false
      → FirstRefusal rs (evaluate re (and_rule rs) ctx).reason
  unfolding evaluate
  evaluate-and_reason rs h = evaluate_all-refusal rs h
