-- ===== src/Transport/RtcToken/Padding.antt =====
-- The padding to a power of two times 256 bytes.
use native.Mathlib.Nat.{mul_assoc, pow-succ'}
use isales_engine.Transport.RtcToken.{Bytes, double_until, next_pow2_multiple_of_256, pad256}
use isales_engine.Prelude.{
  ltb, leb, ltb→lt, Bool-cases, length, take, replicate, length-append, length-replicate,
  take-append, ◌==◌, nat_eq, text_eq, ℕ, zero, suc, ◌+◌, ◌-◌, ◌*◌, ◌^◌, ◌≤◌, ◌<◌, ◌≡◌, refl, sym,
  ap, ◌∙◌, subst, inl, inr, true, [], ◌++◌, append-nil, arith,
}

double_step : (a k : ℕ) → a * 2 * 2 ^ k ≡ a * 2 ^ suc k
double_step a k = mul_assoc a 2 (2 ^ k) ∙ ap (λ x. a * x) (sym (pow-succ' 2 k))

-- A number of bytes is the least that is large enough among a size and its doublings.
abbrev pub IsLeastDoubling : ℕ → ℕ → ℕ → Type 0
IsLeastDoubling fixed n size =
    (k : ℕ) × (size ≡ fixed * 2 ^ k) × (n ≤ size) × ((j : ℕ) → j < k → fixed * 2 ^ j < n)

double_until-least :
    (fuel fixed n : ℕ)
    → 1 ≤ fixed
    → n < fixed + fuel
    → IsLeastDoubling fixed n (double_until fuel fixed n)
unfolding double_until
double_until-least zero fixed n pos h = (0, omega arith, omega arith, λ j lt. absurd (omega arith))
double_until-least (suc fuel) fixed n pos h = elim (Bool-cases (ltb fixed n)) [
  | inr done ↦ rw done (0, omega arith, ground arith, λ j lt. absurd (omega arith))
  | inl small ↦
      let rest = double_until-least fuel (fixed * 2) n (omega arith) (omega arith) in
      rw small (suc rest.0, rest.1 ∙ double_step fixed rest.0, rest.2, below small rest.0 rest.3)
]
  where
    below :
        ltb fixed n ≡ true
        → (k : ℕ) → ((j : ℕ) → j < k → fixed * 2 * 2 ^ j < n)
        → (j : ℕ) → j < suc k
        → fixed * 2 ^ j < n
    below small k h2 zero lt = omega (arith, ltb→lt fixed n small)
    below small k h2 (suc j) lt = subst (λ x. x < n) (double_step fixed j) (h2 j (omega arith))

next_pow2-least : (n : ℕ) → 1 ≤ n → IsLeastDoubling 256 n (next_pow2_multiple_of_256 n)
unfolding next_pow2_multiple_of_256
next_pow2-least n pos = elim (Bool-cases (n == 0)) [
  | inl empty ↦ absurd (ground arith)
  | inr full ↦ rw full (double_until-least n 256 n (omega arith) (omega arith))
]

next_pow2-ge : (n : ℕ) → n ≤ next_pow2_multiple_of_256 n
next_pow2-ge zero = omega arith
next_pow2-ge (suc n) = (next_pow2-least (suc n) (omega arith)).2

take-all : (xs : Bytes) → take (length xs) xs ≡ xs ++ []
take-all xs = ap (take (length xs)) (sym (append-nil xs)) ∙ take-append xs [] ∙ sym (append-nil xs)

pad256-eq :
    (src : Bytes)
    → pad256 src ≡ src ++ replicate (next_pow2_multiple_of_256 (length src) - length src) 0
unfolding pad256
pad256-eq src = elim (Bool-cases (leb (next_pow2_multiple_of_256 (length src)) (length src))) [
  | inr less ↦ rw less refl
  | inl same ↦
      let e : next_pow2_multiple_of_256 (length src) ≡ length src =
        ground (arith, next_pow2-ge (length src)) in
      let none_left : next_pow2_multiple_of_256 (length src) - length src ≡ 0 = omega arith in
      rw (same, none_left, e) (take-all src)
]

-- Padding only adds zeros at the end, so the padded bytes begin with the bytes given, and the
-- length of what is not empty becomes the least of 256, 512, 1024, … that holds it: the loop that
-- doubles never runs out of its fuel.
pub pad256-length :
    (src : Bytes)
    → 1 ≤ length src
    → (take (length src) (pad256 src) ≡ src)
      × IsLeastDoubling 256 (length src) (length (pad256 src))
pad256-length src pos =
    let zeros : Bytes = replicate (next_pow2_multiple_of_256 (length src) - length src) 0 in
    let size : length (pad256 src) ≡ next_pow2_multiple_of_256 (length src) =
      ap length (pad256-eq src)
      ∙ omega (
        arith,
        length-append src zeros,
        length-replicate {A = ℕ} (next_pow2_multiple_of_256 (length src) - length src) 0,
        next_pow2-ge (length src),
      ) in
    (
      ap (take (length src)) (pad256-eq src) ∙ take-append src zeros,
      subst (IsLeastDoubling 256 (length src)) (sym size) (next_pow2-least (length src) pos),
    )
