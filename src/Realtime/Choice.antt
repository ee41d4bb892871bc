-- ===== src/Realtime/Choice.antt =====
-- `random.choice` of a non-empty sequence. The random source is a number that is drawn; the item
-- at its remainder is returned, so that every item can be drawn and nothing else.
use isales_engine.Prelude.{length, all, All, nat_eq, text_eq, ℕ, zero, suc, ◌%◌, List, [], ◌∷◌}

module _ {ℓ} {A : Type ℓ} where
  -- the item at an index, the default past the end
  abbrev pub get_or : List A → ℕ → A → A
  get_or [] i d = d
  get_or (x ∷ xs) zero d = x
  get_or (x ∷ xs) (suc i) d = get_or xs i d

  unfoldable pub choice : ℕ → A → List A → A
  choice draw x xs = get_or (x ∷ xs) (draw % suc (length xs)) x

  get_or-All {κ} :
      (P : A → Type κ) (xs : List A) (i : ℕ) (d : A) → All P xs → P d → P (get_or xs i d)
  get_or-All P [] i d all p = p
  get_or-All P (x ∷ xs) zero d all p = all.0
  get_or-All P (x ∷ xs) (suc i) d all p = get_or-All P xs i d all.1 p

  pub choice-All {κ} :
      (P : A → Type κ) (draw : ℕ) (x : A) (xs : List A) → All P (x ∷ xs) → P (choice draw x xs)
  unfolding choice
  choice-All P draw x xs all = get_or-All P (x ∷ xs) (draw % suc (length xs)) x all all.0
