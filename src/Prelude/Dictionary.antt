-- ===== src/Prelude/Dictionary.antt =====
-- Python's `dict` in insertion order, as an association list with one entry for a key.
use mathlib.Core.Path.{◌≡◌, refl}
use mathlib.Core.Logic.{inl, inr}
use mathlib.Core.Bool.{false}
use mathlib.Core.Option.{Option, none, some}
use mathlib.Core.List.{List, [], ◌∷◌, ◌++◌}
use native.Mathlib.Omega.{arith}
use isales_engine.Prelude.Tests.{if◌then◌else◌, Bool-cases}
use Prim.Native.Nat.{◌+◌}
use isales_engine.Prelude.Lists.{length}
use isales_engine.Prelude.Equality.{Eq, ◌==◌, ==_refl}

abbrev pub Dict {ℓ κ} : Type ℓ → Type κ → Type (ℓ ⊔ κ)
Dict K V = List (K × V)

module _ {ℓ κ} {K : Type ℓ} {V : Type κ} ⦃e : Eq K⦄ where
  -- `d.get(k)`
  unfoldable pub lookup : K → Dict K V → Option V
  lookup k [] = none
  lookup k ((j, v) ∷ d) = if j == k then some v else lookup k d

  -- `d[k] = v`: an old key keeps its place.
  unfoldable pub insert : K → V → Dict K V → Dict K V
  insert k v [] = (k, v) ∷ []
  insert k v ((j, w) ∷ d) = if j == k then (j, v) ∷ d else (j, w) ∷ insert k v d

  -- `d.pop(k, None)`, as the dict that is left
  unfoldable pub remove : K → Dict K V → Dict K V
  remove k [] = []
  remove k ((j, w) ∷ d) = let rest = remove k d in if j == k then rest else (j, w) ∷ rest

  pub lookup-insert_self : (k : K) (v : V) (d : Dict K V) → lookup k (insert k v d) ≡ some v
  unfolding lookup insert
  lookup-insert_self k v [] = ground (arith, ==_refl k)
  lookup-insert_self k v ((j, w) ∷ d) = ground (arith, lookup-insert_self k v d)

  pub lookup-insert :
      (k i : K) (v : V) (d : Dict K V)
      → lookup i (insert k v d) ≡ (if k == i then some v else lookup i d)
  unfolding lookup insert
  lookup-insert k i v [] = refl
  lookup-insert k i v ((j, w) ∷ d) =
      ground (arith, lookup-insert k i v d, e.beq_iff j k, e.beq_iff j i, e.beq_iff k i)

  pub lookup-remove :
      (k i : K) (d : Dict K V) → lookup i (remove k d) ≡ (if k == i then none else lookup i d)
  unfolding lookup remove
  lookup-remove k i [] = ground arith
  lookup-remove k i ((j, w) ∷ d) =
      ground (arith, lookup-remove k i d, e.beq_iff j k, e.beq_iff j i, e.beq_iff k i)

  pub lookup-append_one :
      (i k : K) (v : V) (d : Dict K V)
      → lookup i (d ++ (k, v) ∷ [])
        ≡ elim (lookup i d) [ some w ↦ some w | none ↦ if k == i then some v else none ]
  unfolding lookup
  lookup-append_one i k v [] = refl
  lookup-append_one i k v ((j, w) ∷ d) = ground (arith, lookup-append_one i k v d)

  -- Each key has one entry.
  abbrev pub DistinctKeys : Dict K V → Type κ
  DistinctKeys [] = Unit
  DistinctKeys ((k, v) ∷ d) = (lookup k d ≡ none) × DistinctKeys d

  pub remove-DistinctKeys : (k : K) (d : Dict K V) → DistinctKeys d → DistinctKeys (remove k d)
  unfolding remove
  remove-DistinctKeys k [] h = h
  remove-DistinctKeys k ((j, w) ∷ d) h =
      ground (arith, remove-DistinctKeys k d h.1, lookup-remove k j d)

  pub append-DistinctKeys :
      (k : K) (v : V) (d : Dict K V)
      → DistinctKeys d
      → lookup k d ≡ none
      → DistinctKeys (d ++ (k, v) ∷ [])
  unfolding lookup
  append-DistinctKeys k v [] h absent = (refl, tt)
  append-DistinctKeys k v ((j, w) ∷ d) h absent = ground (
    arith,
    append-DistinctKeys k v d h.1,
    lookup-append_one j k v d,
    e.beq_iff k j,
    e.beq_iff j k,
  )

  pub remove_absent : (k : K) (d : Dict K V) → lookup k d ≡ none → remove k d ≡ d
  unfolding lookup remove
  remove_absent k [] h = refl
  remove_absent k ((j, w) ∷ d) h = ground (arith, remove_absent k d)

  pub remove-insert_absent :
      (k : K) (v : V) (d : Dict K V) → lookup k d ≡ none → remove k (insert k v d) ≡ d
  unfolding lookup insert remove
  remove-insert_absent k v [] h = ground (arith, ==_refl k)
  remove-insert_absent k v ((j, w) ∷ d) h = ground (arith, remove-insert_absent k v d)

  pub length-insert_absent :
      (k : K) (v : V) (d : Dict K V) → lookup k d ≡ none → length (insert k v d) ≡ length d + 1
  unfolding lookup insert
  length-insert_absent k v [] h = refl
  length-insert_absent k v ((j, w) ∷ d) h = ground (arith, length-insert_absent k v d)

  pub absent-insert :
      (k i : K) (v : V) (d : Dict K V)
      → lookup i (insert k v d) ≡ none
      → ((k == i) ≡ false) × (lookup i d ≡ none)
  absent-insert k i v d h = elim (Bool-cases (k == i)) [
    | inl same ↦ let e : some v ≡ none = rw (lookup-insert k i v d, same) at h in cc
    | inr other ↦ (other, rw (lookup-insert k i v d, other) at h)
  ]
