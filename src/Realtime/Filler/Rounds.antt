-- ===== src/Realtime/Filler/Rounds.antt =====
-- No phrase is said again before the pool is exhausted.
use isales_engine.Realtime.Choice.{choice, choice-All}
use isales_engine.Realtime.Filler.{ready_phrases, unused_phrases, pick_from, pick_phrase}
use isales_engine.Prelude.{
  Bool-cases, length, All, nat_eq, list_beq_iff, text_eq, ==-cases, mem, Text, ℕ, suc, ◌+◌, ◌≤◌,
  ◌<◌, ◌≡◌, refl, ap, ◌∙◌, subst, inl, inr, false, none, some, List, [], ◌∷◌, arith,
}

-- The phrases are pairwise different.
abbrev pub Distinct : List Text → Type 0
Distinct [] = Unit
Distinct (p ∷ ps) = (mem p ps ≡ false) × Distinct ps

-- One pick for each number drawn: the phrases, in order.
pub picks : List ℕ → List Text → List Text → List Text
unfolding pick_phrase
picks [] phrases used = []
picks (draw ∷ draws) phrases used = elim (pick_phrase draw phrases used) [
  | none ↦ []
  | some (phrase, used') ↦ phrase ∷ picks draws phrases used'
]

-- Of the phrases to come, none is in the used set or said before.
abbrev pub NoRepeat : List Text → List Text → Type 0
NoRepeat used [] = Unit
NoRepeat used (p ∷ ps) = (mem p used ≡ false) × NoRepeat (p ∷ used) ps

-- Using one more phrase takes at most that one from a pool of different phrases.
absent-unused :
    (phrase : Text) (used ready : List Text)
    → mem phrase ready ≡ false
    → unused_phrases (phrase ∷ used) ready ≡ unused_phrases used ready
unfolding unused_phrases
absent-unused phrase used [] h = refl
absent-unused phrase used (p ∷ ps) h =
    ground (arith, absent-unused phrase used ps, list_beq_iff p phrase, list_beq_iff phrase p)

length-unused :
    (phrase : Text) (used ready : List Text)
    → Distinct ready
    → length (unused_phrases used ready) ≤ length (unused_phrases (phrase ∷ used) ready) + 1
unfolding unused_phrases
length-unused phrase used [] d = omega arith
length-unused phrase used (p ∷ ps) d = elim (==-cases p phrase) [
  | inl e ↦ ground (
    arith,
    absent-unused phrase used ps (subst (λ q. mem q ps ≡ false) e d.0),
    list_beq_iff p phrase,
  )
  | inr ne ↦ ground (arith, length-unused phrase used ps d.1)
]

pick_phrase-unused :
    (draw : ℕ) (phrases used : List Text)
    → pick_phrase draw phrases used
      ≡ pick_from draw used (unused_phrases used (ready_phrases phrases)) (ready_phrases phrases)
unfolding pick_phrase
pick_phrase-unused draw phrases used = refl

unused-IsUnused :
    (used ready : List Text) → All (λ p. mem p used ≡ false) (unused_phrases used ready)
unfolding unused_phrases
unused-IsUnused used [] = tt
unused-IsUnused used (p ∷ ps) = elim (Bool-cases (mem p used)) [
  | inl in_it ↦ rw in_it (unused-IsUnused used ps)
  | inr out ↦ rw out (out, unused-IsUnused used ps)
]

unused-nil : (ready : List Text) → unused_phrases [] ready ≡ ready
unfolding unused_phrases
unused-nil [] = refl
unused-nil (p ∷ ps) = ap (◌∷◌ p) (unused-nil ps)

pick_from-head :
    (draw : ℕ) (used us ready : List Text) (u : Text)
    → pick_from draw used (u ∷ us) ready ≡ some (choice draw u us, choice draw u us ∷ used)
unfolding pick_from
pick_from-head draw used us ready u = refl

-- While phrases are unused, the pick is one of them and joins the used set.
pick_unused :
    (draw : ℕ) (phrases used : List Text)
    → 0 < length (unused_phrases used (ready_phrases phrases))
    → (phrase : Text) × (pick_phrase draw phrases used ≡ some (phrase, phrase ∷ used))
      × (mem phrase used ≡ false)
pick_unused draw phrases used h = from (unused_phrases used (ready_phrases phrases)) refl h
  where
    from :
        (unused : List Text)
        → unused_phrases used (ready_phrases phrases) ≡ unused
        → 0 < length unused
        → (phrase : Text) × (pick_phrase draw phrases used ≡ some (phrase, phrase ∷ used))
          × (mem phrase used ≡ false)
    from [] e h = elim h [ ]
    from (u ∷ us) e h = (
      choice draw u us,
      pick_phrase-unused draw phrases used
          ∙ ap (λ l. pick_from draw used l (ready_phrases phrases)) e
          ∙ pick_from-head draw used us (ready_phrases phrases) u,
      choice-All (λ p. mem p used ≡ false) draw u us
          (subst (All (λ p. mem p used ≡ false)) e (unused-IsUnused used (ready_phrases phrases))),
    )

picks-from :
    (draws : List ℕ) (phrases used : List Text)
    → Distinct (ready_phrases phrases)
    → length draws ≤ length (unused_phrases used (ready_phrases phrases))
    → NoRepeat used (picks draws phrases used) × (length (picks draws phrases used) ≡ length draws)
unfolding picks
picks-from [] phrases used d h = (tt, refl)
picks-from (draw ∷ draws) phrases used d h =
    let (phrase, picked, fresh) = pick_unused draw phrases used (omega arith) in
    let rest =
      picks-from draws phrases (phrase ∷ used) d
        (omega (arith, length-unused phrase used (ready_phrases phrases) d)) in
    rw (picked, picks) ((fresh, rest.0), ap suc rest.1)

-- In a call whose ready phrases are different, as many picks as there are ready phrases all give a
-- phrase, and none is said twice.
pub picks-NoRepeat :
    (draws : List ℕ) (phrases : List Text)
    → Distinct (ready_phrases phrases)
    → length draws ≤ length (ready_phrases phrases)
    → NoRepeat [] (picks draws phrases []) × (length (picks draws phrases []) ≡ length draws)
picks-NoRepeat draws phrases d h =
    picks-from draws phrases [] d (rw (unused-nil (ready_phrases phrases)) h)
