-- ===== src/SessionManager/Registry.antt =====
-- What the registry holds after a call came and went.
use isales_engine.SessionManager.{SessionManager, get, is_registered, register, unregister}
use isales_engine.Prelude.{
  if◌then◌else◌, Option-cases, nat_eq, text_eq, ◌==◌, ==_refl, ==-cases, Dict, lookup-insert,
  lookup-insert_self, lookup, insert, remove, ℕ, ◌≡◌, refl, ap, ◌∙◌, inl, inr, none, some, [], ◌∷◌,
  arith,
}

module _ {S : Type 0} (call_record_id : S → ℕ) where
  registers :
      (session : S) (manager : SessionManager S) (i : ℕ)
      → lookup (call_record_id session) manager.sessions ≡ none
      → get i (register call_record_id session manager)
        ≡ (if call_record_id session == i then some session else lookup i manager.sessions)
  unfolding get register is_registered
  registers session manager i free =
      rw (free, register, is_registered)
        (lookup-insert (call_record_id session) i session manager.sessions)

  refuses :
      (session : S) (manager : SessionManager S) (i : ℕ) (t : S)
      → lookup (call_record_id session) manager.sessions ≡ some t
      → get i (register call_record_id session manager) ≡ lookup i manager.sessions
  unfolding get register is_registered
  refuses session manager i t taken = rw (taken, register, is_registered) refl

  -- A registration adds the session under its id if that id is free, and changes nothing else: a
  -- session that was registered under an id is still the one found there.
  pub get-register :
      (i : ℕ) (session : S) (manager : SessionManager S)
      → get i (register call_record_id session manager) ≡ elim (get i manager) [
        | some earlier ↦ some earlier
        | none ↦ if call_record_id session == i then some session else none
      ]
  unfolding get
  get-register i session manager = elim (Option-cases (lookup k manager.sessions)) [
    | inl free ↦ elim (Option-cases (lookup i manager.sessions)) [
      | inl unknown ↦ registers session manager i free ∙ rw unknown refl
      | inr (t, found) ↦ elim (==-cases k i) [
        | inl same ↦ cc (same, free, found)
        | inr apart ↦ registers session manager i free ∙ rw (apart, found) refl
      ]
    ]
    | inr (t, taken) ↦ elim (Option-cases (lookup i manager.sessions)) [
      | inl unknown ↦ elim (==-cases k i) [
        | inl same ↦ cc (same, taken, unknown)
        | inr apart ↦ refuses session manager i t taken ∙ rw (unknown, apart) refl
      ]
      | inr (u, found) ↦ refuses session manager i t taken ∙ rw found refl
    ]
  ]
    where
      k : ℕ
      k = call_record_id session

  remove-insert : (k : ℕ) (s : S) (d : Dict ℕ S) → lookup k d ≡ none → remove k (insert k s d) ≡ d
  unfolding lookup insert remove
  remove-insert k s [] h = rw (==_refl k) refl
  remove-insert k s ((j, t) ∷ d) h = elim (==-cases j k) [
    | inl same ↦ absurd (ground (arith, nat_eq.beq_iff j k))
    | inr apart ↦ rw (apart, apart) (ap (λ e. (j, t) ∷ e) (remove-insert k s d (ground arith)))
  ]

  -- A call whose id is free, once registered and then unregistered, is what `unregister` returns,
  -- and leaves the registry as it was before.
  pub unregister-register :
      (session : S) (manager : SessionManager S)
      → get (call_record_id session) manager ≡ none
      → unregister (call_record_id session) (register call_record_id session manager)
        ≡ (some session, manager)
  unfolding get register is_registered unregister
  unregister-register session manager free =
      let k : ℕ = call_record_id session in
      rw (free, register, is_registered)
        (rw
          (
            lookup-insert_self k session manager.sessions,
            remove-insert k session manager.sessions free,
          )
          refl)
