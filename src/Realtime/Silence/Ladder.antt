-- ===== src/Realtime/Silence/Ladder.antt =====
-- The reactivation ladder of the main phase, and the wrap-up phase.
use isales_engine.Prelude.Int.{ℤ, pos, leb_ℤ, ltb_ℤ}
use isales_engine.Prelude.{
  if◌then◌else◌, length, get_elem?, nat_eq, text_eq, Text, ℕ, zero, suc, ◌+◌, ◌-◌, min, ◌≡◌, refl,
  ap, ◌∙◌, true, false, Option, none, some, List, [], ◌∷◌, arith,
}
use isales_engine.Realtime.Silence.{SilenceConfig, wait, activate, hangup, evaluate_silence}

-- In wrap-up silence never reactivates and speaks no phrase: it hangs up from
-- `wrap_up_hangup_ms` on, and waits before.
pub evaluate_silence-wrap_up :
    (config : SilenceConfig) (elapsed : ℤ) (activations : ℕ)
    → evaluate_silence elapsed activations config true
      ≡ some (record {
        decision = if leb_ℤ config.wrap_up_hangup_ms elapsed then hangup else wait;
        phrase = none;
      })
unfolding evaluate_silence
evaluate_silence-wrap_up config elapsed activations = ground arith

-- The phrase of an activation: the last one serves all activations that have none of their own,
-- and without phrases there is an empty one.
pub phrase_at : List Text → ℕ → Text
phrase_at [] n = []
phrase_at (p ∷ []) n = p
phrase_at (p ∷ q ∷ ps) zero = p
phrase_at (p ∷ q ∷ ps) (suc n) = phrase_at (q ∷ ps) n

get_elem?-phrase_at :
    (p : Text) (ps : List Text) (n : ℕ)
    → get_elem? (p ∷ ps) (min n (suc (length ps) - 1)) ≡ some (phrase_at (p ∷ ps) n)
unfolding phrase_at
get_elem?-phrase_at p [] n =
    let e : min n (suc 0 - 1) ≡ 0 = omega arith in ap (get_elem? (p ∷ [])) e
get_elem?-phrase_at p (q ∷ ps) zero =
    let e : min 0 (suc (suc (length ps)) - 1) ≡ 0 = omega arith in ap (get_elem? (p ∷ q ∷ ps)) e
get_elem?-phrase_at p (q ∷ ps) (suc n) =
    let e : min (suc n) (suc (suc (length ps)) - 1) ≡ suc (min n (suc (length ps) - 1)) =
      omega arith in
    ap (get_elem? (p ∷ q ∷ ps)) e ∙ get_elem?-phrase_at q ps n

-- In the main phase a decision is returned in every case, the index into the phrases never being
-- out of range: to wait below the threshold, to hang up with the hang-up phrase once the
-- activations are used up, and else to activate with the phrase of that activation.
pub evaluate_silence-main :
    (config : SilenceConfig) (elapsed : ℤ) (activations : ℕ)
    → evaluate_silence elapsed activations config false
      ≡ some (
          if ltb_ℤ elapsed config.threshold_ms
          then record { decision = wait; phrase = none }
          else if leb_ℤ config.max_activations (pos activations)
          then record { decision = hangup; phrase = some config.hangup_phrase }
          else record { decision = activate; phrase = some (phrase_at config.phrases activations) })
unfolding evaluate_silence
evaluate_silence-main config elapsed activations = by_phrases config.phrases refl
  where
    by_phrases :
        (phrases : List Text)
        → config.phrases ≡ phrases
        → evaluate_silence elapsed activations config false
          ≡ some (
              if ltb_ℤ elapsed config.threshold_ms
              then record { decision = wait; phrase = none }
              else if leb_ℤ config.max_activations (pos activations)
              then record { decision = hangup; phrase = some config.hangup_phrase }
              else record {
                decision = activate;
                phrase = some (phrase_at config.phrases activations);
              })
    by_phrases [] e = unfold phrase_at in ground arith
    by_phrases (p ∷ ps) e = ground (arith, get_elem?-phrase_at p ps activations)

-- The customer stays silent: each round evaluates a silence of the same length, and an activation
-- counts one up, as the turn loop does. The result is the number of activations at the hang-up,
-- with its phrase; `none` if `rounds` evaluations bring none.
pub climb : SilenceConfig → ℤ → ℕ → ℕ → Option (ℕ × Option Text)
climb config elapsed zero activations = none
climb config elapsed (suc rounds) activations =
    elim (evaluate_silence elapsed activations config false) [
      | none ↦ none
      | some d ↦ elim d.decision [
        | wait ↦ climb config elapsed rounds activations
        | activate ↦ climb config elapsed rounds (suc activations)
        | hangup ↦ some (activations, d.phrase)
      ]
    ]

module _ (config : SilenceConfig) (m : ℕ) (limit : config.max_activations ≡ pos m) (elapsed : ℤ)
    (silent : ltb_ℤ elapsed config.threshold_ms ≡ false) where
  climb_from :
      (rounds activations : ℕ)
      → activations + rounds ≡ m
      → climb config elapsed (suc rounds) activations ≡ some (m, some config.hangup_phrase)
  unfolding climb
  climb_from zero activations h = ground (arith, evaluate_silence-main config elapsed activations)
  climb_from (suc rounds) activations h =
      ground (
        arith,
        evaluate_silence-main config elapsed activations,
        climb_from rounds (suc activations),
      )

  -- With a silence that is not below the threshold in every round, and a limit of activations that
  -- is not negative, a call is hung up after exactly
  -- `max_activations` activations, in one evaluation more than that.
  pub climb-hangup : climb config elapsed (suc m) 0 ≡ some (m, some config.hangup_phrase)
  climb-hangup = climb_from m 0 (omega arith)
