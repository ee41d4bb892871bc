-- ===== src/Providers/LlmRegistry/Stable.antt =====
-- A slot keeps its client.
use isales_engine.Providers.LlmRegistry.{
  slot_eq, Built, built, unsupported, failed, LlmRegistry, resolved, built_for, resolve_slot,
  resolve,
}
use isales_engine.Prelude.{
  Bool-cases, Option-cases, nat_eq, text_eq, Text, non_empty, lookup-insert_self, lookup, insert,
  ◌≡◌, ap, subst, inl, inr, Option, none, some,
}

module _ (Client : Type 0) (build_llm again : Text → Option Text → Built Client) where
  kept :
      (provider : Text) (model : Option Text) (c : Client) (r r' : LlmRegistry Client)
      (client : Client)
      → lookup (provider, model) r.cache ≡ some c
      → resolved c r ≡ resolved client r'
      → resolve_slot Client again provider model r' ≡ resolved client r'
  unfolding resolve_slot
  kept provider model c r r' client there h =
      let same : c ≡ client = cc in
      let moved : r ≡ r' = cc in
      subst
        (λ (x : LlmRegistry Client). resolve_slot Client again provider model x ≡ resolved client x)
        moved (rw (there, resolve_slot) (ap (λ x. resolved x r) same))

  built-again :
      (provider : Text) (model : Option Text) (b : Built Client) (r r' : LlmRegistry Client)
      (client : Client)
      → built_for Client (provider, model) b r ≡ resolved client r'
      → resolve_slot Client again provider model r' ≡ resolved client r'
  unfolding built_for resolve_slot
  built-again provider model (built c) r r' client h =
      kept provider model c (record r { cache = insert (provider, model) c r.cache }) r' client
        (lookup-insert_self (provider, model) c r.cache) h
  built-again provider model unsupported r r' client h =
      kept provider model r.default
        (record r { cache = insert (provider, model) r.default r.cache }) r' client
        (lookup-insert_self (provider, model) r.default r.cache) h
  built-again provider model failed r r' client h = cc

  again_slot :
      (provider : Text) (model : Option Text) (r r' : LlmRegistry Client) (client : Client)
      → resolve_slot Client build_llm provider model r ≡ resolved client r'
      → resolve_slot Client again provider model r' ≡ resolved client r'
  unfolding resolve_slot
  again_slot provider model r r' client h = elim (Option-cases (lookup (provider, model) r.cache)) [
    | inl absent ↦
        built-again provider model (build_llm provider model) r r' client
          (rw (absent, resolve_slot) at h)
    | inr (c, there) ↦ kept provider model c r r' client there (rw (there, resolve_slot) at h)
  ]

  -- Once a slot's client is resolved it is resolved to the same client ever after, with the
  -- registry as it is: whatever building a client would give by then, it is not built again.
  pub resolve-again :
      (provider model : Option Text) (r r' : LlmRegistry Client) (client : Client)
      → resolve Client build_llm provider model r ≡ resolved client r'
      → resolve Client again provider model r' ≡ resolved client r'
  unfolding resolve
  resolve-again none model r r' client h =
      let same : r.default ≡ client = cc in
      let moved : r ≡ r' = cc in
      subst (λ (x : LlmRegistry Client). resolved x.default x ≡ resolved client x) moved
        (ap (λ x. resolved x r) same)
  resolve-again (some provider) model r r' client h = elim (Bool-cases (non_empty provider)) [
    | inl named ↦
        let asked : resolve_slot Client build_llm provider model r ≡ resolved client r' =
          rw named at h in
        rw named (again_slot provider model r r' client asked)
    | inr nameless ↦
        let asked : resolved r.default r ≡ resolved client r' = rw nameless at h in
        let same : r.default ≡ client = cc in
        let moved : r ≡ r' = cc in
        rw nameless (
          subst (λ (x : LlmRegistry Client). resolved x.default x ≡ resolved client x) moved
            (ap (λ x. resolved x r) same))
  ]
