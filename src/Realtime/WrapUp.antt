-- ===== src/Realtime/WrapUp.antt =====
-- isales_engine/wrapup/manager.py: whether the wrap-up goes on for another turn. A reading of the
-- monotonic clock, a float of seconds in the source, is a number of nanoseconds.
pub mod Limits
mod Examples
use isales_engine.Realtime.Choice.{choice}
use isales_engine.Prelude.{
  leb, if◌then◌else◌, nat_eq, text_eq, Text, text, ℕ, ◌-◌, ◌*◌, Bool, true, false, Option, none,
  some, List, [], ◌∷◌,
}

abbrev pub second : ℕ
second = 1_000_000_000

pub record WrapUpConfig : Type 0 where
  pub max_rounds : ℕ
  pub max_seconds : ℕ
  pub closing_phrases : List Text
  pub referee_enabled : Bool

pub data Reason : Type 0 where
  max_rounds max_seconds fine : Reason

pub record WrapUpDecision : Type 0 where
  pub proceed : Bool
  pub closing_phrase : Text
  pub reason : Reason

abbrev pub farewell : Text
farewell = text "好的，再见。"

-- `_pick_phrase`, with the number that is drawn
unfoldable pub pick_closing : ℕ → List Text → Text
unfolding choice
pick_closing draw [] = farewell
pick_closing draw (p ∷ ps) = choice draw p ps

unfoldable pub evaluate_wrap_up : ℕ → ℕ → Option ℕ → WrapUpConfig → ℕ → WrapUpDecision
evaluate_wrap_up draw rounds_so_far started_at_monotonic config now =
    let over : Reason → WrapUpDecision = λ why. record {
      proceed = false;
      closing_phrase = pick_closing draw config.closing_phrases;
      reason = why;
    } in
    let go_on : WrapUpDecision = record { proceed = true; closing_phrase = []; reason = fine } in
    if leb config.max_rounds rounds_so_far then over max_rounds else elim started_at_monotonic [
      | none ↦ go_on
      | some started ↦
          if leb (config.max_seconds * second) (now - started) then over max_seconds else go_on
    ]
