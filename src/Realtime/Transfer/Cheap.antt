-- ===== src/Realtime/Transfer/Cheap.antt =====
-- The triggers that need no LLM.
use isales_engine.Realtime.Transfer.{
  TransferConfig, keyword, hit, no_transfer, first_keyword, evaluate_transfer_cheap, Digits,
  over_round,
}
use isales_engine.Prelude.{
  Bool-cases, nat_eq, text_eq, Text, contains, non_empty, ℕ, ◌≤◌, ◌≡◌, subst, ◌↔◌, ◌⊎◌, inl, inr,
  Bool, true, false, ◌&&◌, Option, none, some, List, [], ◌∷◌, arith,
}

-- A keyword that is not empty, and stands in the text.
abbrev pub Spoken : Text → Text → Type 0
Spoken user_text kw = (non_empty kw ≡ true) × (contains kw user_text ≡ true)

-- The first keyword spoken, with those before it not spoken.
pub data FirstSpoken (user_text : Text) : List Text → Text → Type 0 where
  here : {kw : Text} {kws : List Text} → Spoken user_text kw → FirstSpoken user_text (kw ∷ kws) kw
  later :
      {other kw : Text} {kws : List Text}
      → ¬ Spoken user_text other
      → FirstSpoken user_text kws kw
      → FirstSpoken user_text (other ∷ kws) kw

first_keyword-FirstSpoken :
    (user_text : Text) (kws : List Text) (kw : Text)
    → first_keyword user_text kws ≡ some kw
    → FirstSpoken user_text kws kw
unfolding first_keyword
first_keyword-FirstSpoken user_text [] kw h = cc
first_keyword-FirstSpoken user_text (k ∷ kws) kw h =
    elim (Bool-cases (non_empty k && contains k user_text)) [
      | inl spoken ↦
          let e : k ≡ kw = ground arith in
          subst (λ w. FirstSpoken user_text (k ∷ kws) w) e (here (ground arith, ground arith))
      | inr silent ↦
          later (λ s. ground arith) (first_keyword-FirstSpoken user_text kws kw (ground arith))
    ]

FirstSpoken-first_keyword :
    (user_text : Text) (kws : List Text) (kw : Text)
    → FirstSpoken user_text kws kw
    → first_keyword user_text kws ≡ some kw
unfolding first_keyword
FirstSpoken-first_keyword user_text _ _ (here s) = ground arith
FirstSpoken-first_keyword user_text _ kw (later {other = o} {kws = kws} n f) =
    elim (Bool-cases (non_empty o && contains o user_text)) [
      | inl spoken ↦ absurd (n (ground arith, ground arith))
      | inr silent ↦ ground (arith, FirstSpoken-first_keyword user_text kws kw f)
    ]

module _ (digits : Digits) {Number : Type 0} (draw : ℕ) (user_text : Text) (turn_count : ℕ)
    (goal_achieved : Bool) (config : TransferConfig Number) where
  -- The keyword trigger fires exactly for the first keyword spoken, if keywords are enabled.
  pub cheap-keyword :
      (kw : Text)
      → (evaluate_transfer_cheap digits draw user_text turn_count goal_achieved config
          ≡ hit draw keyword kw config.phrases)
        ↔ ((config.keyword_enabled ≡ true) × FirstSpoken user_text config.keywords kw)
  unfolding evaluate_transfer_cheap hit
  cheap-keyword kw = (
    λ h. (ground arith, first_keyword-FirstSpoken user_text config.keywords kw (ground arith)),
    λ h. ground (arith, FirstSpoken-first_keyword user_text config.keywords kw h.1),
  )

  -- The turn count has reached the configured threshold.
  abbrev pub Reached : Option ℕ → Type 0
  Reached none = ⊥
  Reached (some threshold) = threshold ≤ turn_count

  Reached-iff : (o : Option ℕ) → (over_round o turn_count ≡ true) ↔ Reached o
  unfolding over_round
  Reached-iff none = (λ h. cc, λ h. absurd h)
  Reached-iff (some t) = (λ h. ground arith, λ h. ground arith)

  -- With no keyword to fire, the round trigger fires exactly when it is enabled, the turn count has
  -- reached the threshold and the goal is not achieved; else nothing fires.
  pub cheap-round :
      (config.keyword_enabled ≡ false) ⊎ (first_keyword user_text config.keywords ≡ none)
      → ((evaluate_transfer_cheap digits draw user_text turn_count goal_achieved config).triggered
          ≡ true)
        ↔ ((config.round_enabled ≡ true) × Reached config.round_threshold × (goal_achieved ≡ false))
  unfolding evaluate_transfer_cheap hit no_transfer
  cheap-round silent = (
    λ h. (ground arith, (Reached-iff config.round_threshold).0 (ground arith), ground arith),
    λ h. ground (arith, (Reached-iff config.round_threshold).1 h.1),
  )
