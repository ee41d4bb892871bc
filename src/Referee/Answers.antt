-- ===== src/Referee/Answers.antt =====
-- The category that is read from an answer, and the rounds that a referee sees.
use isales_engine.Streaming.Types.{fail_open, effective_category}
use isales_engine.CallSession.{DialogTurn}
use isales_engine.Referee.{
  take_word, first_token, surrounding, parse_referee_output, recent_dialog_rounds,
}
use isales_engine.Prelude.{
  Bool-cases, length, take, drop_while, drop_while_end, All, take-append-drop, length-newest,
  nat_eq, text_eq, ◌==◌, mem, Text, is_space, strip_chars, non_empty, ℕ, ◌-◌, ◌*◌, ◌<◌, min, ◌≡◌,
  refl, sym, ap, ◌∙◌, subst, inl, inr, Bool, true, false, none, some, List, [], ◌∷◌, ◌++◌,
  append_assoc, arith,
}

-- A text and what stands around it in another.
abbrev pub Within : Text → Text → Type 0
Within part whole = (before : Text) × (after : Text) × (before ++ part ++ after ≡ whole)

drop_while-Within : (p : ℕ → Bool) (s : Text) → (before : Text) × (before ++ drop_while p s ≡ s)
drop_while-Within p [] = ([], refl)
drop_while-Within p (c ∷ cs) = elim (Bool-cases (p c)) [
  | inl blank ↦
      let (before, e) = drop_while-Within p cs in (c ∷ before, rw blank (ap (λ r. c ∷ r) e))
  | inr solid ↦ ([], rw solid refl)
]

drop_while_end-Within :
    (p : ℕ → Bool) (s : Text) → (after : Text) × (drop_while_end p s ++ after ≡ s)
drop_while_end-Within p [] = ([], refl)
drop_while_end-Within p (c ∷ cs) = by_rest (drop_while_end p cs) refl (drop_while_end-Within p cs)
  where
    by_rest :
        (rest : Text)
        → drop_while_end p cs ≡ rest
        → (after : Text) × (drop_while_end p cs ++ after ≡ cs)
        → (after : Text) × (drop_while_end p (c ∷ cs) ++ after ≡ c ∷ cs)
    by_rest [] e w = elim (Bool-cases (p c)) [
      | inl blank ↦ (c ∷ cs, rw (e, blank) refl)
      | inr solid ↦ (cs, rw (e, solid) refl)
    ]
    by_rest (y ∷ ys) e w = (w.0, rw e (ap (λ r. c ∷ r) (ap (λ r. r ++ w.0) (sym e) ∙ w.1)))

take_word-Within : (s : Text) → (after : Text) × (take_word s ++ after ≡ s)
unfolding take_word
take_word-Within [] = ([], refl)
take_word-Within (c ∷ cs) = elim (Bool-cases (is_space c)) [
  | inl blank ↦ (c ∷ cs, rw blank refl)
  | inr solid ↦ let (after, e) = take_word-Within cs in (after, rw solid (ap (λ r. c ∷ r) e))
]

take_word-All : (s : Text) → All (λ c. is_space c ≡ false) (take_word s)
unfolding take_word
take_word-All [] = tt
take_word-All (c ∷ cs) = elim (Bool-cases (is_space c)) [
  | inl blank ↦ rw blank tt
  | inr solid ↦ rw solid (solid, take_word-All cs)
]

All-drop : (P : ℕ → Type 0) (xs ys : Text) → All P (xs ++ ys) → All P xs × All P ys
All-drop P [] ys h = (tt, h)
All-drop P (x ∷ xs) ys h = let rest = All-drop P xs ys h.1 in ((h.0, rest.0), rest.1)

-- Of two texts within one another the inner one is within the outer one's whole.
Within-strip_chars : (chars s : Text) → Within (strip_chars chars s) s
Within-strip_chars chars s =
    let p : ℕ → Bool = λ c. mem c chars in
    let (before, e) = drop_while-Within p s in
    let (after, f) = drop_while_end-Within p (drop_while p s) in
    (before, after, append_assoc before _ after ∙ ap (λ r. before ++ r) f ∙ e)

Within-All : (P : ℕ → Type 0) (part whole : Text) → Within part whole → All P whole → All P part
Within-All P part whole w h =
    (All-drop P w.0 part (All-drop P (w.0 ++ part) w.1 (subst (All P) (sym w.2) h)).0).1

Within-first_token : (raw : Text) → Within (first_token raw) raw
unfolding first_token
Within-first_token raw =
    let (before, e) = drop_while-Within is_space raw in
    let (after, f) = take_word-Within (drop_while is_space raw) in
    (before, after, append_assoc before _ after ∙ ap (λ r. before ++ r) f ∙ e)

first_token-All : (raw : Text) → All (λ c. is_space c ≡ false) (first_token raw)
unfolding first_token
first_token-All raw = take_word-All (drop_while is_space raw)

Within-trans : (a b c : Text) → Within a b → Within b c → Within a c
Within-trans a b c inner outer = (
  outer.0 ++ inner.0,
  inner.1 ++ outer.1,
  sym (append_assoc (outer.0 ++ inner.0 ++ a) inner.1 outer.1)
      ∙ ap (λ r. r ++ outer.1)
          (ap (λ r. r ++ inner.1) (append_assoc outer.0 inner.0 a)
            ∙ append_assoc outer.0 (inner.0 ++ a) inner.1
            ∙ ap (λ r. outer.0 ++ r) inner.2)
      ∙ outer.2,
)

-- A category that a referee reports is not empty, has no white space in it, and stands as it is in
-- the answer of the model: nothing is reported that the model did not say.
pub parse_referee_output-Within :
    (raw label category : Text) (duration_ms : ℕ)
    → effective_category (parse_referee_output raw label duration_ms) ≡ some category
    → (non_empty category ≡ true) × All (λ c. is_space c ≡ false) category × Within category raw
unfolding parse_referee_output effective_category fail_open
parse_referee_output-Within raw label category duration_ms h =
    let word : Text = first_token raw in
    let cat : Text = strip_chars surrounding word in
    elim (Bool-cases (non_empty cat)) [
      | inl full ↦
          let e : effective_category (parse_referee_output raw label duration_ms) ≡ some cat =
            rw full refl in
          let same : cat ≡ category = cc (e, h) in
          subst (λ x. (non_empty x ≡ true) × All (λ c. is_space c ≡ false) x × Within x raw) same
            (
              full,
              Within-All (λ c. is_space c ≡ false) cat word (Within-strip_chars surrounding word)
                  (first_token-All raw),
              Within-trans cat word raw (Within-strip_chars surrounding word)
                  (Within-first_token raw),
            )
      | inr empty ↦
          let e : effective_category (parse_referee_output raw label duration_ms) ≡ none =
            rw empty refl in
          cc (e, h)
    ]

-- The recent rounds, for a number of rounds that is not 0, are the newest turns of the history in
-- their order, two for each round or all if there are fewer.
pub recent_dialog_rounds-newest :
    (rounds : ℕ) (history : List DialogTurn)
    → 0 < rounds
    → ((older : List DialogTurn) × (older ++ recent_dialog_rounds rounds history ≡ history))
      × (length (recent_dialog_rounds rounds history) ≡ min (rounds * 2) (length history))
unfolding recent_dialog_rounds
recent_dialog_rounds-newest rounds [] pos = (([], refl), omega arith)
recent_dialog_rounds-newest rounds (turn ∷ turns) pos =
    let all : List DialogTurn = turn ∷ turns in
    elim (Bool-cases (rounds == 0)) [
      | inl zero_rounds ↦ absurd (ground arith)
      | inr some_rounds ↦ rw some_rounds (
        (take (length all - rounds * 2) all, take-append-drop (length all - rounds * 2) all),
        length-newest (rounds * 2) all,
      )
    ]
