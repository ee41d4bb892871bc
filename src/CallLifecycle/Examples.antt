-- ===== src/CallLifecycle/Examples.antt =====
-- A counter of five and a lost answer, and the theorems on isales_engine/call_lifecycle.py at them.
use isales_engine.Prelude.Int.{pos, ltb_ℤ}
use isales_engine.CallLifecycle.{Fate, answered, unanswered, Redis, decr_concurrency}
use isales_engine.CallLifecycle.Counter.{decr_concurrency-counter}
use isales_engine.Prelude.{if◌then◌else◌, nat_eq, text_eq, ◌==◌, ℕ, ◌≡◌, refl, true, false, []}

abbrev five : Redis ℕ
five = record { counter = pos 5; pushed = []; commands = 0 }

-- The first answer is lost.
abbrev first_lost : ℕ → Fate
first_lost n = if n == 0 then unanswered else answered

abbrev all_answered : ℕ → Fate
all_answered n = answered

succeeds : (decr_concurrency first_lost 3 five).0 ≡ true
unfolding decr_concurrency
succeeds = refl

-- The decrement whose answer was lost is carried out again.
decrements_twice : (decr_concurrency first_lost 3 five).1.counter ≡ pos 3
unfolding decr_concurrency
decrements_twice = refl

decr_concurrency-counter_example :
    ltb_ℤ (decr_concurrency first_lost 3 five).1.counter (pos 0) ≡ false
decr_concurrency-counter_example = decr_concurrency-counter first_lost 3 five succeeds
