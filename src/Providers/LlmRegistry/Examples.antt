-- ===== src/Providers/LlmRegistry/Examples.antt =====
-- A test of isales_engine/providers/llm_registry.py.
use isales_engine.Providers.LlmRegistry.{
  slot_eq, Built, built, resolved, built_for, resolve_slot, resolve, new,
}
use isales_engine.Prelude.{
  nat_eq, text_eq, Text, text, lookup, insert, ℕ, ◌≡◌, refl, Option, none, some, [], ◌∷◌,
}

-- Clients are numbers; 7 is the default.
abbrev builds : Text → Option Text → Built ℕ
builds provider model = built 3

builds_once :
    resolve ℕ builds (some (text "ark")) none (new ℕ 7)
    ≡ resolved 3 (record { default = 7; cache = ((text "ark", none), 3) ∷ [] })
unfolding resolve resolve_slot built_for new lookup insert
builds_once = refl
