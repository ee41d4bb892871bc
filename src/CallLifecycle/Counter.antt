-- ===== src/CallLifecycle/Counter.antt =====
-- What is left of the counter and the queue when the commands fail.
use isales_engine.Prelude.Int.{ℤ, pos, negsuc, ltb_ℤ}
use isales_engine.CallLifecycle.{
  Fate, answered, refused, unanswered, Redis, pred_ℤ, command, decr_concurrency, lpush_retried,
}
use isales_engine.Prelude.{
  if◌then◌else◌, Bool-cases, all, nat_eq, text_eq, Text, ℕ, zero, suc, ◌+◌, ◌≡◌, refl, inl, inr,
  Bool, true, false, List, ◌∷◌, arith,
}

-- A decrement that reports success has left a counter that is not negative.
abbrev IsSound : {P : Type 0} → Bool × Redis P → Type 0
IsSound result = result.0 ≡ true → ltb_ℤ result.1.counter (pos 0) ≡ false

attempt-IsSound :
    {P : Type 0} (ok ok2 : Bool) (redis redis2 : Redis P) (again again2 : Bool × Redis P)
    → IsSound again
    → IsSound again2
    → (ok2 ≡ true → ltb_ℤ redis2.counter (pos 0) ≡ false)
    → IsSound (
        if ok
        then (if ltb_ℤ redis.counter (pos 0)
            then (if ok2 then (true, redis2) else again2)
            else (true, redis))
        else again)
attempt-IsSound false ok2 redis redis2 again again2 h h2 zeroed = h
attempt-IsSound true ok2 redis redis2 again again2 h h2 zeroed =
    elim (Bool-cases (ltb_ℤ redis.counter (pos 0))) [
      | inr fine ↦ rw fine (λ _. fine)
      | inl negative ↦ rw negative (by_set ok2 zeroed)
    ]
  where
    by_set :
        (b : Bool)
        → (b ≡ true → ltb_ℤ redis2.counter (pos 0) ≡ false)
        → IsSound (if b then (true, redis2) else again2)
    by_set true z = z
    by_set false z = h2

module _ {P : Type 0} (fate : ℕ → Fate) where
  set_zero :
      (redis : Redis P)
      → (command fate (λ r. record r { counter = pos 0 }) redis).0 ≡ true
      → ltb_ℤ (command fate (λ r. record r { counter = pos 0 }) redis).1.counter (pos 0) ≡ false
  unfolding command
  set_zero redis h = by_fate (fate redis.commands) refl
    where
      by_fate :
          (f : Fate)
          → fate redis.commands ≡ f
          → ltb_ℤ
              (command fate (λ (r : Redis P). record r { counter = pos 0 }) redis).1.counter
              (pos 0)
            ≡ false
      by_fate answered e = rw (e, command) refl
      by_fate refused e = cc (e, h)
      by_fate unanswered e = rw (e, command) refl

  -- However the commands fare, a decrement that reports success leaves a counter that is not
  -- negative.
  pub decr_concurrency-counter :
      (retries : ℕ) (redis : Redis P)
      → (decr_concurrency fate retries redis).0 ≡ true
      → ltb_ℤ (decr_concurrency fate retries redis).1.counter (pos 0) ≡ false
  unfolding decr_concurrency
  decr_concurrency-counter zero redis = λ h. cc
  decr_concurrency-counter (suc retries) redis =
      let first = command fate (λ (r : Redis P). record r { counter = pred_ℤ r.counter }) redis in
      let second = command fate (λ (r : Redis P). record r { counter = pos 0 }) first.1 in
      attempt-IsSound first.0 second.0 first.1 second.1 (decr_concurrency fate retries first.1)
        (decr_concurrency fate retries second.1) (decr_concurrency-counter retries first.1)
        (decr_concurrency-counter retries second.1) (set_zero first.1)

  -- When every command is answered, one attempt is enough: the counter goes down by one, and one
  -- that is not positive is put to 0.
  pub decr_concurrency-answered :
      (retries : ℕ) (redis : Redis P)
      → ((n : ℕ) → fate n ≡ answered)
      → ((decr_concurrency fate (suc retries) redis).0 ≡ true)
        × ((decr_concurrency fate (suc retries) redis).1.counter
            ≡ (if ltb_ℤ (pos 0) redis.counter then pred_ℤ redis.counter else pos 0))
  unfolding decr_concurrency command pred_ℤ
  decr_concurrency-answered retries redis all = by_counter redis.counter refl
    where
      by_counter :
          (c : ℤ)
          → redis.counter ≡ c
          → ((decr_concurrency fate (suc retries) redis).0 ≡ true)
            × ((decr_concurrency fate (suc retries) redis).1.counter
                ≡ (if ltb_ℤ (pos 0) redis.counter then pred_ℤ redis.counter else pos 0))
      by_counter (pos zero) e = ground (arith, all redis.commands, all (redis.commands + 1))
      by_counter (pos (suc n)) e = ground (arith, all redis.commands, all (redis.commands + 1))
      by_counter (negsuc n) e = ground (arith, all redis.commands, all (redis.commands + 1))

  -- A push that reports success has put the message on the queue, whatever happened to the attempts
  -- before.
  pub lpush_retried-pushed :
      (retries : ℕ) (queue : Text) (payload : P) (redis : Redis P)
      → (lpush_retried fate retries queue payload redis).0 ≡ true
      → (older : List (Text × P)) × ((lpush_retried fate retries queue payload redis).1.pushed
          ≡ (queue, payload) ∷ older)
  unfolding lpush_retried
  lpush_retried-pushed zero queue payload redis = λ h. cc
  lpush_retried-pushed (suc retries) queue payload redis =
      by_fate (lpush_retried-pushed retries queue payload) (fate redis.commands) refl
    where
      Pushed : ℕ → Redis P → Type 0
      Pushed n r =
          (lpush_retried fate n queue payload r).0 ≡ true
          → (older : List (Text × P)) × ((lpush_retried fate n queue payload r).1.pushed
              ≡ (queue, payload) ∷ older)

      by_fate :
          ((r : Redis P) → Pushed retries r)
          → (f : Fate) → fate redis.commands ≡ f
          → Pushed (suc retries) redis
      by_fate again answered e = rw (e, command) (λ h. (redis.pushed, refl))
      by_fate again refused e = rw (e, command) (again _)
      by_fate again unanswered e = rw (e, command) (again _)
