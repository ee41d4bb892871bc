-- ===== src/CallLifecycle.antt =====
-- isales_engine/call_lifecycle.py: what is done at the end of a call. Redis is a counter and the
-- list of what was pushed; each command has a fate: it is answered, refused, or carried out with
-- its answer lost, and the last two raise. The waits between the attempts are left out.
pub mod Counter
pub mod Finalize
mod Examples
use isales_engine.Prelude.Int.{ℤ, pos, negsuc, ltb_ℤ}
use isales_engine.SessionManager.{SessionManager, unregister}
use isales_engine.Prelude.{
  if◌then◌else◌, nat_eq, text_eq, mem, Text, ℕ, zero, suc, ◌+◌, Bool, true, false, Option, none,
  some, List, ◌∷◌,
}

pub data Fate : Type 0 where
  answered refused unanswered : Fate

pub record Redis (P : Type 0) : Type 0 where
  pub counter : ℤ
  pub pushed : List (Text × P)
  pub commands : ℕ  -- the number of commands so far

unfoldable pub pred_ℤ : ℤ → ℤ
pred_ℤ (pos zero) = negsuc zero
pred_ℤ (pos (suc n)) = pos n
pred_ℤ (negsuc n) = negsuc (suc n)

module _ {P : Type 0} (fate : ℕ → Fate) where
  -- A command that changes the store by `act`: whether it was answered, and the store behind it.
  unfoldable pub command : (Redis P → Redis P) → Redis P → Bool × Redis P
  command act redis =
      let next : Redis P = record redis { commands = redis.commands + 1 } in
      elim (fate redis.commands) [
        | answered ↦ (true, act next)
        | refused ↦ (false, next)
        | unanswered ↦ (false, act next)
      ]

  -- `redis.lpush` in the loop `for attempt in range(1, max_retries + 1)`
  unfoldable pub lpush_retried : ℕ → Text → P → Redis P → Bool × Redis P
  unfolding command
  lpush_retried zero queue payload redis = (false, redis)
  lpush_retried (suc retries) queue payload redis =
      let (ok, redis') = command (λ r. record r { pushed = (queue, payload) ∷ r.pushed }) redis in
      let rest = lpush_retried retries queue payload redis' in if ok then (true, redis') else rest

  -- `_decr_concurrency`: a failure of `set` goes on with another attempt, which decrements again.
  unfoldable pub decr_concurrency : ℕ → Redis P → Bool × Redis P
  unfolding command pred_ℤ
  decr_concurrency zero redis = (false, redis)
  decr_concurrency (suc retries) redis =
      let (ok, redis') = command (λ r. record r { counter = pred_ℤ r.counter }) redis in
      let (ok2, redis2) = command (λ r. record r { counter = pos 0 }) redis' in
      let again = decr_concurrency retries redis' in
      let again2 = decr_concurrency retries redis2 in
      if ok
      then (if ltb_ℤ redis'.counter (pos 0)
          then (if ok2 then (true, redis2) else again2)
          else (true, redis'))
      else again

abbrev pub max_retries : ℕ
max_retries = 3

-- `_resolve_hangup_cause`: the values of the enumeration `HangupCause` of isales_common and its
-- member NORMAL_CLEARING are parameters.
unfoldable pub resolve_hangup_cause : List Text → Text → Option Text → Text
resolve_hangup_cause causes normal_clearing none = normal_clearing
resolve_hangup_cause causes normal_clearing (some raw) =
    if mem raw causes then raw else normal_clearing
