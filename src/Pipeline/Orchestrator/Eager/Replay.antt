-- ===== src/Pipeline/Orchestrator/Eager/Replay.antt =====
-- What the replay hands over, whatever the order of the steps.
use isales_engine.Pipeline.Orchestrator.Eager.{
  Eager, start_eager, drain_step, replay_step, cancel_eager, buffer_remainder, Act, drains, replays,
  cancels, act, run,
}
use isales_engine.Prelude.{
  Bool-cases, length, get_elem?, take, drop, concat, All, length-append, take-append-drop,
  concat-append, take_all, nat_eq, text_eq, Text, ℕ, zero, suc, ◌+◌, ◌≤◌, ◌<◌, ◌≡◌, refl, sym, ap,
  ◌∙◌, inl, inr, true, Option, none, some, List, [], ◌∷◌, ◌++◌, append-nil, append_assoc, arith,
}

pub record Follows (core : List Text) (e : Eager) : Type 0 where
  pub whole : e.buffer ++ e.coming ≡ core
  pub within : e.replayed_count ≤ length e.buffer
  pub handed : e.handed ≡ take e.replayed_count e.buffer
  pub ended : e.returned ≡ true → (e.replayed_count ≡ length e.buffer) × (e.eager_done ≡ true)

pub start_eager-Follows : (core : List Text) → Follows core (start_eager core)
unfolding start_eager
start_eager-Follows core = record {
  whole = refl;
  within = omega arith;
  handed = refl;
  ended = λ h. cc;
}

take_append_of_le {ℓ} :
    {A : Type ℓ} (n : ℕ) (xs ys : List A) → n ≤ length xs → take n (xs ++ ys) ≡ take n xs
take_append_of_le zero xs ys h = refl
take_append_of_le (suc n) [] ys h = absurd (omega arith)
take_append_of_le (suc n) (x ∷ xs) ys h =
    ap (λ zs. x ∷ zs) (take_append_of_le n xs ys (omega arith))

take-suc {ℓ} :
    {A : Type ℓ} (n : ℕ) (xs : List A) (x : A)
    → get_elem? xs n ≡ some x
    → take (n + 1) xs ≡ take n xs ++ x ∷ []
take-suc n [] x h = cc
take-suc zero (y ∷ xs) x h = ap (λ z. z ∷ []) cc
take-suc (suc n) (y ∷ xs) x h =
    let same : suc n + 1 ≡ suc (n + 1) = omega arith in
    rw same (ap (λ zs. y ∷ zs) (take-suc n xs x h))

pub lt_of_get_elem {ℓ} :
    {A : Type ℓ} (xs : List A) (n : ℕ) (x : A) → get_elem? xs n ≡ some x → n < length xs
lt_of_get_elem [] n x h = cc
lt_of_get_elem (y ∷ xs) zero x h = omega arith
lt_of_get_elem (y ∷ xs) (suc n) x h = omega (arith, lt_of_get_elem xs n x h)

pub le_of_get_elem {ℓ} : {A : Type ℓ} (xs : List A) (n : ℕ) → get_elem? xs n ≡ none → length xs ≤ n
le_of_get_elem [] n h = omega arith
le_of_get_elem (y ∷ xs) zero h = cc
le_of_get_elem (y ∷ xs) (suc n) h = omega (arith, le_of_get_elem xs n h)

drain_step-Follows :
    (core coming : List Text) (e : Eager)
    → coming ≡ e.coming
    → Follows core e
    → Follows core (drain_step coming e)
unfolding drain_step
drain_step-Follows core [] e same h = record {
  whole = h.whole;
  within = h.within;
  handed = h.handed;
  ended = λ r. ((h.ended r).0, refl);
}
drain_step-Follows core (s ∷ rest) e same h = elim (Bool-cases e.eager_done) [
  | inl stopped ↦ simp stopped h
  | inr going ↦ simp going (record {
    whole = append_assoc e.buffer (s ∷ []) rest ∙ ap (λ xs. e.buffer ++ xs) same ∙ h.whole;
    within = omega (arith, h.within, length-append e.buffer (s ∷ []));
    handed = h.handed ∙ sym (take_append_of_le e.replayed_count e.buffer (s ∷ []) h.within);
    ended = λ r. let late : e.eager_done ≡ true = (h.ended r).1 in absurd (cc);
  })
]

replay_step-Follows :
    (core : List Text) (next : Option Text) (e : Eager)
    → get_elem? e.buffer e.replayed_count ≡ next
    → Follows core e
    → Follows core (replay_step next e)
unfolding replay_step
replay_step-Follows core none e empty h = elim (Bool-cases e.eager_done) [
  | inl stopped ↦ simp stopped (record {
    whole = h.whole;
    within = h.within;
    handed = h.handed;
    ended = λ r. (omega (arith, le_of_get_elem e.buffer e.replayed_count empty, h.within), refl);
  })
  | inr going ↦ simp going h
]
replay_step-Follows core (some s) e next h = elim (Bool-cases e.returned) [
  | inl over ↦ simp over h
  | inr reading ↦ simp reading (record {
    whole = h.whole;
    within = omega (arith, lt_of_get_elem e.buffer e.replayed_count s next);
    handed = ap (λ xs. xs ++ s ∷ []) h.handed ∙ sym (take-suc e.replayed_count e.buffer s next);
    ended = λ r. cc;
  })
]

act-Follows : (core : List Text) (a : Act) (e : Eager) → Follows core e → Follows core (act a e)
unfolding act cancel_eager
act-Follows core drains e h = drain_step-Follows core e.coming e refl h
act-Follows core replays e h =
    replay_step-Follows core (get_elem? e.buffer e.replayed_count) e refl h
act-Follows core cancels e h = record {
  whole = h.whole;
  within = h.within;
  handed = h.handed;
  ended = λ r. ((h.ended r).0, refl);
}

pub run-Follows :
    (core : List Text) (acts : List Act) (e : Eager) → Follows core e → Follows core (run acts e)
unfolding run
run-Follows core [] e h = h
run-Follows core (a ∷ acts) e h = run-Follows core acts (act a e) (act-Follows core a e h)

-- Nothing is lost but by a cancellation: a task that is done has given all.
abbrev pub IsLive : Act → Type 0
IsLive drains = Unit
IsLive replays = Unit
IsLive cancels = ⊥

abbrev pub Complete : Eager → Type 0
Complete e = e.eager_done ≡ true → e.coming ≡ []

drain_step-Complete :
    (coming : List Text) (e : Eager)
    → coming ≡ e.coming
    → Complete e
    → Complete (drain_step coming e)
unfolding drain_step
drain_step-Complete [] e same h = λ r. sym same
drain_step-Complete (s ∷ rest) e same h = elim (Bool-cases e.eager_done) [
  | inl stopped ↦ simp stopped (λ r. h stopped)
  | inr going ↦ simp going (λ r. cc)
]

replay_step-Complete : (next : Option Text) (e : Eager) → Complete e → Complete (replay_step next e)
unfolding replay_step
replay_step-Complete none e h = ground (arith, h)
replay_step-Complete (some s) e h = ground (arith, h)

act-Complete : (a : Act) (e : Eager) → IsLive a → Complete e → Complete (act a e)
unfolding act
act-Complete drains e live h = drain_step-Complete e.coming e refl h
act-Complete replays e live h = replay_step-Complete (get_elem? e.buffer e.replayed_count) e h
act-Complete cancels e live h = absurd live

start_eager-Complete : (core : List Text) → Complete (start_eager core)
unfolding start_eager
start_eager-Complete core h = cc

run-Complete : (acts : List Act) (e : Eager) → All IsLive acts → Complete e → Complete (run acts e)
unfolding run
run-Complete [] e live h = h
run-Complete (a ∷ acts) e live h = run-Complete acts (act a e) live.1 (act-Complete a e live.0 h)

Follows-prefix :
    (core : List Text) (e : Eager)
    → Follows core e
    → concat e.handed ++ (concat (drop e.replayed_count e.buffer) ++ concat e.coming) ≡ concat core
Follows-prefix core e h =
    let before : List Text = take e.replayed_count e.buffer in
    let after : List Text = drop e.replayed_count e.buffer in
    ap (λ xs. concat xs ++ (concat after ++ concat e.coming)) h.handed
    ∙ sym (append_assoc (concat before) (concat after) (concat e.coming))
    ∙ ap (λ s. s ++ concat e.coming)
        (sym (concat-append before after)
          ∙ ap (λ xs. concat xs) (take-append-drop e.replayed_count e.buffer))
    ∙ sym (concat-append e.buffer e.coming)
    ∙ ap (λ xs. concat xs) h.whole

pub record Replays (core : List Text) (e : Eager) : Type 0 where
  pub ordered : e.handed ≡ take e.replayed_count core
  pub kept : concat e.handed ++ (buffer_remainder e ++ concat e.coming) ≡ concat core

-- In whatever order generation, replay and a cancellation take their steps, what has been handed
-- over is the beginning of what is generated, each sentence once and in order, and the remainder
-- of the buffer follows it, up to what has not been generated.
pub run-Replays : (core : List Text) (acts : List Act) → Replays core (run acts (start_eager core))
unfolding buffer_remainder
run-Replays core acts =
    let e = run acts (start_eager core) in
    let h = run-Follows core acts (start_eager core) (start_eager-Follows core) in
    record {
      ordered =
          h.handed
          ∙ sym (take_append_of_le e.replayed_count e.buffer e.coming h.within)
          ∙ ap (λ xs. take e.replayed_count xs) h.whole;
      kept = Follows-prefix core e h;
    }

-- In whatever order generation and replay take their steps, a replay that has returned has handed
-- over exactly the sentences of the generation.
pub run-direct :
    (core : List Text) (acts : List Act)
    → All IsLive acts
    → (run acts (start_eager core)).returned ≡ true
    → (run acts (start_eager core)).handed ≡ core
unfolding start_eager
run-direct core acts live over =
    let h = run-Follows core acts (start_eager core) (start_eager-Follows core) in
    let (last, stopped) = h.ended over in
    let e = run acts (start_eager core) in
    h.handed
    ∙ take_all e.replayed_count e.buffer (omega (arith, last))
    ∙ sym (append-nil e.buffer)
    ∙ ap (λ xs. e.buffer ++ xs)
        (sym (run-Complete acts (start_eager core) live (start_eager-Complete core) stopped))
    ∙ h.whole
