-- ===== src/Prelude/Trim.antt =====
-- What trimming keeps: lemmas on `drop_while` and `drop_while_end`, and on `strip`.
use Prim.Native.Nat.{◌≤◌, ℕ}
use mathlib.Core.Path.{◌≡◌, refl, ap, ◌∙◌}
use mathlib.Core.Bool.{Bool, true, false}
use mathlib.Core.List.{List, [], ◌∷◌}
use native.Mathlib.Omega.{arith}
use isales_engine.Prelude.Tests.{Bool-cases}
use mathlib.Core.Logic.{inl, inr}
use isales_engine.Prelude.Lists.{length, drop_while, drop_while_end, keep}
use isales_engine.Prelude.Strings.{Text, strip, is_space}

module _ {ℓ} {A : Type ℓ} (p : A → Bool) where
  drop_while-idempotent : (xs : List A) → drop_while p (drop_while p xs) ≡ drop_while p xs
  drop_while-idempotent [] = refl
  drop_while-idempotent (x ∷ xs) = ground (arith, drop_while-idempotent xs)

  drop_while_end-idempotent :
      (xs : List A) → drop_while_end p (drop_while_end p xs) ≡ drop_while_end p xs
  drop_while_end-idempotent [] = refl
  drop_while_end-idempotent (x ∷ xs) = ground (arith, drop_while_end-idempotent xs)

  pub drop_while_end-cons :
      (x : A) (xs : List A) → p x ≡ false → drop_while_end p (x ∷ xs) ≡ x ∷ drop_while_end p xs
  drop_while_end-cons x xs h = ground arith

  pub drop_while-cons : (x : A) (xs : List A) → p x ≡ false → drop_while p (x ∷ xs) ≡ x ∷ xs
  drop_while-cons x xs h = ground arith

  -- The two trims do not disturb each other.
  drop_while-drop_while_end :
      (xs : List A)
      → drop_while p (drop_while_end p (drop_while p xs)) ≡ drop_while_end p (drop_while p xs)
  drop_while-drop_while_end [] = refl
  drop_while-drop_while_end (x ∷ xs) = elim (Bool-cases (p x)) [
    | inl skip ↦ rw skip (drop_while-drop_while_end xs)
    | inr first ↦ cc (
      drop_while-cons x xs first,
      drop_while_end-cons x xs first,
      drop_while-cons x (drop_while_end p xs) first,
    )
  ]

  pub trim-idempotent :
      (xs : List A)
      → drop_while_end p (drop_while p (drop_while_end p (drop_while p xs)))
        ≡ drop_while_end p (drop_while p xs)
  trim-idempotent xs =
      ap (drop_while_end p) (drop_while-drop_while_end xs)
      ∙ drop_while_end-idempotent (drop_while p xs)

  length-drop_while-le : (xs : List A) → length (drop_while p xs) ≤ length xs
  length-drop_while-le [] = omega arith
  length-drop_while-le (x ∷ xs) = ground (arith, length-drop_while-le xs)

  length-drop_while_end-le : (xs : List A) → length (drop_while_end p xs) ≤ length xs
  length-drop_while_end-le [] = omega arith
  length-drop_while_end-le (x ∷ xs) = ground (arith, length-drop_while_end-le xs)

  pub length-trim-le : (xs : List A) → length (drop_while_end p (drop_while p xs)) ≤ length xs
  length-trim-le xs =
      omega (arith, length-drop_while-le xs, length-drop_while_end-le (drop_while p xs))

module _ {ℓ} {A : Type ℓ} (p q : A → Bool) (apart : (a : A) → p a ≡ true → q a ≡ false) where
  keep-drop_while : (xs : List A) → keep q (drop_while p xs) ≡ keep q xs
  keep-drop_while [] = refl
  keep-drop_while (x ∷ xs) = ground (arith, keep-drop_while xs, apart x)

  keep-drop_while_end : (xs : List A) → keep q (drop_while_end p xs) ≡ keep q xs
  keep-drop_while_end [] = refl
  keep-drop_while_end (x ∷ xs) = ground (arith, keep-drop_while_end xs, apart x)

  -- Trimming takes away nothing that `q` looks for.
  pub keep-trim : (xs : List A) → keep q (drop_while_end p (drop_while p xs)) ≡ keep q xs
  keep-trim xs = keep-drop_while_end (drop_while p xs) ∙ keep-drop_while xs

pub strip-idempotent : (s : Text) → strip (strip s) ≡ strip s
strip-idempotent s = trim-idempotent is_space s

pub length-strip-le : (s : Text) → length (strip s) ≤ length s
length-strip-le s = length-trim-le is_space s

-- Trimming stops at a character that is no white space.
pub strip_starts : (c : ℕ) (s : Text) → is_space c ≡ false → (t : Text) × (strip (c ∷ s) ≡ c ∷ t)
strip_starts c s h =
    let e : drop_while is_space (c ∷ s) ≡ c ∷ s = drop_while-cons is_space c s h in
    (drop_while_end is_space s, rw e (drop_while_end-cons is_space c s h))

-- A trimmed text starts with no white space.
pub stripped_starts : (c : ℕ) (s : Text) → strip (c ∷ s) ≡ c ∷ s → is_space c ≡ false
stripped_starts c s h = elim (Bool-cases (is_space c)) [
  | inl space ↦
      let e : strip s ≡ c ∷ s = rw space at h in
      absurd (omega (arith, ap (λ t. length t) e, length-strip-le s))
  | inr other ↦ other
]
