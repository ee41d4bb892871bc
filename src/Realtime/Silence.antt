-- ===== src/Realtime/Silence.antt =====
-- isales_engine/realtime/silence_detector.py: what to do after so much silence. Times are
-- integers; the counter of activations starts at 0 and is only incremented.
pub mod Ladder
use isales_engine.Prelude.Int.{ℤ, pos, negsuc, leb_ℤ, ltb_ℤ}
use isales_engine.Prelude.{
  if◌then◌else◌, length, get_elem?, nat_eq, text_eq, Text, non_empty, ℕ, ◌-◌, min, Bool, not,
  Option, none, some, List, [],
}

pub data Decision : Type 0 where
  wait activate hangup : Decision

pub record SilenceConfig : Type 0 where
  pub threshold_ms : ℤ
  pub max_activations : ℤ
  pub phrases : List Text
  pub hangup_phrase : Text
  pub wrap_up_hangup_ms : ℤ

pub record SilenceDecision : Type 0 where
  pub decision : Decision
  pub phrase : Option Text

-- `x or 0`
or_zero : Option ℤ → ℤ
or_zero none = pos 0
or_zero (some n) = n

max_ℤ : ℤ → ℤ → ℤ
max_ℤ a b = if ltb_ℤ a b then b else a

unfoldable pub silence_calc_origin_ts : Option ℤ → Option ℤ → ℤ
unfolding or_zero max_ℤ
silence_calc_origin_ts none none = pos 0
silence_calc_origin_ts last_user_speech_end_ms last_tts_end_ms =
    max_ℤ (or_zero last_user_speech_end_ms) (or_zero last_tts_end_ms)

-- The result of `evaluate_silence`; `none` is an `IndexError` of `config.phrases[idx]`.
unfoldable pub evaluate_silence : ℤ → ℕ → SilenceConfig → Bool → Option SilenceDecision
evaluate_silence silence_elapsed_ms activations_so_far config in_wrap_up =
    if in_wrap_up
    then (if leb_ℤ config.wrap_up_hangup_ms silence_elapsed_ms
        then some (record { decision = hangup; phrase = none })
        else some (record { decision = wait; phrase = none }))
    else if ltb_ℤ silence_elapsed_ms config.threshold_ms
    then some (record { decision = wait; phrase = none })
    else if leb_ℤ config.max_activations (pos activations_so_far)
    then some (record { decision = hangup; phrase = some config.hangup_phrase })
    else if not (non_empty config.phrases)
    then some (record { decision = activate; phrase = some [] })
    else elim (get_elem? config.phrases (min activations_so_far (length config.phrases - 1))) [
      | none ↦ none
      | some phrase ↦ some (record { decision = activate; phrase = some phrase })
    ]
