-- ===== src/Prelude/Equality.antt =====
-- Equality tests of keys and texts, as instances.
use isales_engine.Prelude.Tests.{◌==◌ as nat_beq, ==_iff, if◌then◌else◌}
use Prim.Native.Nat.{ℕ}
use mathlib.Core.Path.{◌≡◌, refl}
use mathlib.Core.Logic.{◌↔◌, ◌⊎◌, inl, inr}
use mathlib.Core.Bool.{Bool, true, false}
use mathlib.Core.List.{List, [], ◌∷◌}
use native.Mathlib.Omega.{arith}

pub record Eq {ℓ} (A : Type ℓ) : Type ℓ where
  pub beq : A → A → Bool
  pub beq_iff : (x y : A) → (beq x y ≡ true) ↔ (x ≡ y)

abbrev pub list_beq : List ℕ → List ℕ → Bool
list_beq [] [] = true
list_beq [] (y ∷ ys) = false
list_beq (x ∷ xs) [] = false
list_beq (x ∷ xs) (y ∷ ys) = if nat_beq x y then list_beq xs ys else false

pub list_beq_iff : (a b : List ℕ) → (list_beq a b ≡ true) ↔ (a ≡ b)
list_beq_iff [] [] = (λ _. refl, λ _. refl)
list_beq_iff [] (y ∷ ys) = (λ h. cc, λ h. cc)
list_beq_iff (x ∷ xs) [] = (λ h. cc, λ h. cc)
list_beq_iff (x ∷ xs) (y ∷ ys) =
    (λ h. ground (arith, (list_beq_iff xs ys).0), λ h. ground (arith, (list_beq_iff xs ys).1))

instance abbrev pub nat_eq : Eq ℕ
nat_eq = record { beq_iff = ==_iff; beq = nat_beq }

instance abbrev pub text_eq : Eq (List ℕ)
text_eq = record { beq = list_beq; beq_iff = list_beq_iff }

infix 50 ◌==◌
abbrev pub ◌==◌ {ℓ} : {A : Type ℓ} ⦃e : Eq A⦄ → A → A → Bool
◌==◌ ⦃e⦄ = e.beq

module _ {ℓ} {A : Type ℓ} ⦃e : Eq A⦄ where
  pub ==_refl : (a : A) → (a == a) ≡ true
  ==_refl a = (e.beq_iff a a).1 refl

  pub ==-cases : (a b : A) → (a ≡ b) ⊎ ((a == b) ≡ false)
  ==-cases a b = go (a == b) refl
    where
      go : (t : Bool) → (a == b) ≡ t → (a ≡ b) ⊎ ((a == b) ≡ false)
      go true h = inl ((e.beq_iff a b).0 h)
      go false h = inr h

  -- `a in xs`
  abbrev pub mem : A → List A → Bool
  mem a [] = false
  mem a (x ∷ xs) = if a == x then true else mem a xs
