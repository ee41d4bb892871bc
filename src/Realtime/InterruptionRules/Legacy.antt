-- ===== src/Realtime/InterruptionRules/Legacy.antt =====
-- The synthesized default tree against the fixed sequence of tests that it replaced.
use isales_engine.Realtime.InterruptionRules.{
  Regex, default_rule, evaluate_partial, InterruptionVerdict, ignored, triggered,
}
use isales_engine.Prelude.Int.{ℤ, pos, leb_ℤ, ◌-ℤ◌}
use isales_engine.Prelude.{
  if◌then◌else◌, length, nat_eq, text_eq, mem, Text, text, strip, ◌≡◌, List, [], ◌∷◌, arith,
}

-- Whitelist, then length, then duration: the first test that fails names the reason.
abbrev pub legacy : List Text → ℤ → ℤ → Text → ℤ → InterruptionVerdict
legacy whitelist min_text_length min_duration_ms said elapsed_ms =
    if mem (strip said) whitelist
    then record { verdict = ignored; reason = text "not(keyword)" }
    else if leb_ℤ min_text_length (pos (length (strip said)))
    then (if leb_ℤ min_duration_ms elapsed_ms
        then record { verdict = triggered; reason = text "and" }
        else record { verdict = ignored; reason = text "duration" })
    else record { verdict = ignored; reason = text "length" }

module _ (re : Regex) where
  -- The default tree gives, on every partial, the verdict and the reason of the fixed sequence.
  pub evaluate_partial-default :
      (whitelist : List Text) (min_text_length min_duration_ms : ℤ) (said : Text) (start now : ℤ)
      → evaluate_partial re said start now (default_rule whitelist min_text_length min_duration_ms)
        ≡ legacy whitelist min_text_length min_duration_ms said (now -ℤ start)
  unfolding evaluate_partial default_rule
  evaluate_partial-default [] min_text_length min_duration_ms said start now = ground arith
  evaluate_partial-default (w ∷ ws) min_text_length min_duration_ms said start now = ground arith
