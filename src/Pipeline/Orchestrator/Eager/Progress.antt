-- ===== src/Pipeline/Orchestrator/Eager/Progress.antt =====
-- The replay never gets stuck.
use isales_engine.Pipeline.Orchestrator.Eager.{
  Eager, start_eager, drain_step, replay_step, Act, drains, replays, act, run,
}
use isales_engine.Pipeline.Orchestrator.Eager.Replay.{
  run-Follows, start_eager-Follows, lt_of_get_elem,
}
use isales_engine.Prelude.{
  Bool-cases, length, get_elem?, replicate, length-append, nat_eq, text_eq, Text, ℕ, zero, suc, ◌+◌,
  ◌-◌, ◌<◌, ◌≡◌, refl, sym, ap, subst, inl, inr, true, Option, none, some, List, [], ◌∷◌, ◌++◌,
  arith,
}

run-append : (xs ys : List Act) (e : Eager) → run (xs ++ ys) e ≡ run ys (run xs e)
unfolding run
run-append [] ys e = refl
run-append (a ∷ xs) ys e = run-append xs ys (act a e)

done_drain :
    (coming : List Text) (e : Eager) → e.eager_done ≡ true → (drain_step coming e).eager_done ≡ true
unfolding drain_step
done_drain [] e h = refl
done_drain (s ∷ rest) e h = ground arith

done_stays :
    (n : ℕ) (e : Eager) → e.eager_done ≡ true → (run (replicate n drains) e).eager_done ≡ true
unfolding run act
done_stays zero e h = h
done_stays (suc n) e h = done_stays n (drain_step e.coming e) (done_drain e.coming e h)

drains_all :
    (n : ℕ) (coming : List Text) (e : Eager)
    → coming ≡ e.coming
    → length coming < n
    → (run (replicate n drains) e).eager_done ≡ true
unfolding run act
drains_all zero coming e same few = absurd (omega arith)
drains_all (suc n) [] e same few =
    subst (λ c. (run (replicate n drains) (drain_step c e)).eager_done ≡ true) same
      (unfold drain_step in done_stays n (record e { eager_done = true }) refl)
drains_all (suc n) (s ∷ rest) e same few = elim (Bool-cases e.eager_done) [
  | inl stopped ↦ done_stays n (drain_step e.coming e) (done_drain e.coming e stopped)
  | inr going ↦
      let moved : drain_step (s ∷ rest) e
          ≡ record e { coming = rest; buffer = e.buffer ++ s ∷ [] } =
        unfold drain_step in simp going refl in
      subst (λ c. (run (replicate n drains) (drain_step c e)).eager_done ≡ true) same
        (rw moved (
          drains_all n rest (record e { coming = rest; buffer = e.buffer ++ s ∷ [] }) refl
            (omega arith)))
]

returned_replay :
    (next : Option Text) (e : Eager) → e.returned ≡ true → (replay_step next e).returned ≡ true
unfolding replay_step
returned_replay none e h = ground arith
returned_replay (some s) e h = ground arith

returned_stays :
    (n : ℕ) (e : Eager) → e.returned ≡ true → (run (replicate n replays) e).returned ≡ true
unfolding run act
returned_stays zero e h = h
returned_stays (suc n) e h =
    returned_stays n (replay_step (get_elem? e.buffer e.replayed_count) e)
      (returned_replay (get_elem? e.buffer e.replayed_count) e h)

replays_all :
    (n : ℕ) (next : Option Text) (e : Eager)
    → get_elem? e.buffer e.replayed_count ≡ next
    → e.eager_done ≡ true
    → length e.buffer - e.replayed_count < n
    → (run (replicate n replays) e).returned ≡ true
unfolding run act
replays_all zero next e same over few = absurd (omega arith)
replays_all (suc n) none e same over few =
    subst (λ x. (run (replicate n replays) (replay_step x e)).returned ≡ true) (sym same)
      (unfold replay_step in
        simp over (returned_stays n (record e { eager_done = true; returned = true }) refl))
replays_all (suc n) (some s) e same over few = elim (Bool-cases e.returned) [
  | inl back ↦ returned_stays n _ (returned_replay (get_elem? e.buffer e.replayed_count) e back)
  | inr reading ↦
      let e' : Eager = record e {
        replayed_count = e.replayed_count + 1;
        handed = e.handed ++ s ∷ [];
      } in
      let moved : replay_step (some s) e ≡ e' = unfold replay_step in simp reading refl in
      let more = lt_of_get_elem e.buffer e.replayed_count s same in
      subst (λ x. (run (replicate n replays) (replay_step x e)).returned ≡ true) (sym same)
        (rw moved (
          replays_all n (get_elem? e'.buffer e'.replayed_count) e' refl over (omega (arith, more))))
]

-- No order of steps gets stuck: whatever steps generation, replay and cancellations have taken,
-- as many steps of generation and then of the replay as there are sentences, and one more of each,
-- bring the replay to its return.
pub run-returns :
    (core : List Text) (acts : List Act)
    → (run
        (acts ++ (replicate (suc (length core)) drains ++ replicate (suc (length core)) replays))
        (start_eager core)).returned
      ≡ true
run-returns core acts =
    let n = suc (length core) in
    let e = run acts (start_eager core) in
    let e' = run (replicate n drains) e in
    let h = run-Follows core acts (start_eager core) (start_eager-Follows core) in
    let h' = run-Follows core (replicate n drains) e h in
    rw (run-append acts (replicate n drains ++ replicate n replays) (start_eager core)) (
      rw (run-append (replicate n drains) (replicate n replays) e) (
        replays_all n (get_elem? e'.buffer e'.replayed_count) e' refl
          (drains_all n e.coming e refl
            (omega (arith, ap (λ xs. length xs) h.whole, length-append e.buffer e.coming)))
          (omega (arith, ap (λ xs. length xs) h'.whole, length-append e'.buffer e'.coming))))
