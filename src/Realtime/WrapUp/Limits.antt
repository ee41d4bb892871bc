-- ===== src/Realtime/WrapUp/Limits.antt =====
-- The two limits of a wrap-up.
use isales_engine.Realtime.Choice.{choice-All}
use isales_engine.Realtime.WrapUp.{
  WrapUpConfig, max_rounds, max_seconds, farewell, pick_closing, evaluate_wrap_up, second,
}
use isales_engine.Prelude.{
  leb, if◌then◌else◌, Bool-cases, all, All, nat_eq, text_eq, Text, ℕ, ◌-◌, ◌*◌, ◌<◌, ◌≡◌, refl, ◌↔◌,
  inl, inr, true, false, Option, none, some, List, [], ◌∷◌, arith,
}

pick_closing-All :
    (P : Text → Type 0) (draw : ℕ) (phrases : List Text)
    → All P phrases
    → P farewell
    → P (pick_closing draw phrases)
unfolding pick_closing
pick_closing-All P draw [] all default = default
pick_closing-All P draw (p ∷ ps) all default = choice-All P draw p ps all

module _ (draw rounds : ℕ) (config : WrapUpConfig) (now : ℕ) where
  -- The wrap-up goes on exactly while both limits are unmet: fewer rounds than `max_rounds`, and,
  -- if it has a start time, less than `max_seconds` since then.
  pub evaluate_wrap_up-proceed :
      (started : Option ℕ)
      → ((evaluate_wrap_up draw rounds started config now).proceed ≡ true) ↔ (
          (rounds < config.max_rounds)
          × ((t : ℕ) → started ≡ some t → now - t < config.max_seconds * second))
  unfolding evaluate_wrap_up
  evaluate_wrap_up-proceed none = (λ h. (ground arith, λ t e. cc), λ h. ground arith)
  evaluate_wrap_up-proceed (some s) =
      (λ h. (ground arith, λ t e. ground arith), λ h. ground (arith, h.1 s refl))

  -- A wrap-up that stops gives the limit that was met as its reason, the rounds before the time,
  -- and a closing phrase that satisfies whatever all configured phrases and the default one do.
  pub evaluate_wrap_up-stop :
      (P : Text → Type 0) (started : Option ℕ)
      → All P config.closing_phrases
      → P farewell
      → (evaluate_wrap_up draw rounds started config now).proceed ≡ false
      → ((evaluate_wrap_up draw rounds started config now).reason
          ≡ (if leb config.max_rounds rounds then max_rounds else max_seconds))
        × P (evaluate_wrap_up draw rounds started config now).closing_phrase
  unfolding evaluate_wrap_up
  evaluate_wrap_up-stop P none configured default h = (
    ground arith,
    elim (Bool-cases (leb config.max_rounds rounds)) [
      | inl over ↦ rw over (pick_closing-All P draw config.closing_phrases configured default)
      | inr under ↦ absurd (ground arith)
    ],
  )
  evaluate_wrap_up-stop P (some s) configured default h = (
    ground arith,
    elim (Bool-cases (leb config.max_rounds rounds)) [
      | inl over ↦ rw over (pick_closing-All P draw config.closing_phrases configured default)
      | inr under ↦ rw under (elim (Bool-cases (leb (config.max_seconds * second) (now - s))) [
        | inl late ↦ rw late (pick_closing-All P draw config.closing_phrases configured default)
        | inr early ↦ absurd (ground arith)
      ])
    ],
  )
