-- ===== src/Providers/LlmRegistry.antt =====
-- isales_engine/providers/llm_registry.py: the language model's client of each slot. Clients are
-- a parameter, and so is `build_llm`, which may refuse.
pub mod Stable
mod Examples
use isales_engine.Prelude.{
  if◌then◌else◌, Bool-cases, Eq, nat_eq, text_eq, ◌==◌, Text, non_empty, Dict, lookup, insert, ◌≡◌,
  refl, sym, ap, ◌∙◌, ◌↔◌, inl, inr, Bool, true, false, Option, none, some, [],
}

-- A key of the cache: `(provider, model)`.
abbrev pub Slot : Type 0
Slot = Text × Option Text

abbrev model_beq : Option Text → Option Text → Bool
model_beq none none = true
model_beq none (some b) = false
model_beq (some a) none = false
model_beq (some a) (some b) = a == b

model_beq_iff : (a b : Option Text) → (model_beq a b ≡ true) ↔ (a ≡ b)
model_beq_iff none none = (λ _. refl, λ _. refl)
model_beq_iff none (some b) = (λ h. cc, λ h. cc)
model_beq_iff (some a) none = (λ h. cc, λ h. cc)
model_beq_iff (some a) (some b) =
    (λ h. ap some ((text_eq.beq_iff a b).0 h), λ h. (text_eq.beq_iff a b).1 (cc))

abbrev slot_beq : Slot → Slot → Bool
slot_beq (p, m) (q, n) = if p == q then model_beq m n else false

pub slot_beq_iff : (a b : Slot) → (slot_beq a b ≡ true) ↔ (a ≡ b)
slot_beq_iff (p, m) (q, n) = elim (Bool-cases (p == q)) [
  | inl same ↦ rw same (
    λ h. let e = (text_eq.beq_iff p q).0 same in let f = (model_beq_iff m n).0 h in cc,
    λ h. (model_beq_iff m n).1 (ap (λ (x : Slot). x.1) h),
  )
  | inr other ↦ rw other (
    λ h. cc,
    λ h.
        let e = (text_eq.beq_iff p q).1 (ap (λ (x : Slot). x.0) h) in
        let f : true ≡ false = sym e ∙ other in cc,
  )
]

instance abbrev pub slot_eq : Eq Slot
slot_eq = record { beq = slot_beq; beq_iff = slot_beq_iff }

-- How `build_llm` ends: the exceptions that `resolve` catches, and any other.
pub data Built (Client : Type 0) : Type 0 where
  built : Client → Built Client
  unsupported failed : Built Client

module _ (Client : Type 0) where
  pub record LlmRegistry : Type 0 where
    pub default : Client
    pub cache : Dict Slot Client

  unfoldable pub new : Client → LlmRegistry
  new default_client = record { default = default_client; cache = [] }

  -- What `resolve` comes to: a client and the registry behind it, or an exception.
  pub data Resolved : Type 0 where
    resolved : Client → LlmRegistry → Resolved
    raised : Resolved

  unfoldable pub built_for : Slot → Built Client → LlmRegistry → Resolved
  built_for slot (built client) r =
      resolved client (record r { cache = insert slot client r.cache })
  built_for slot unsupported r =
      resolved r.default (record r { cache = insert slot r.default r.cache })
  built_for slot failed r = raised

  module _ (build_llm : Text → Option Text → Built Client) where
    unfoldable pub resolve_slot : Text → Option Text → LlmRegistry → Resolved
    unfolding built_for
    resolve_slot provider model r = elim (lookup (provider, model) r.cache) [
      | some client ↦ resolved client r
      | none ↦ built_for (provider, model) (build_llm provider model) r
    ]

    unfoldable pub resolve : Option Text → Option Text → LlmRegistry → Resolved
    unfolding resolve_slot
    resolve none model r = resolved r.default r
    resolve (some provider) model r =
        if non_empty provider then resolve_slot provider model r else resolved r.default r
