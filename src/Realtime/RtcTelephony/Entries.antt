-- ===== src/Realtime/RtcTelephony/Entries.antt =====
-- What the dispatcher should hold for the calls, and what all calls share.
use isales_engine.Realtime.RtcTelephony.Calls.{IsEnded}
use isales_engine.Realtime.RtcTelephony.{CallState}
use isales_engine.Transport.SessionDispatcher.{SessionEntry}
use isales_engine.Prelude.{
  Bool-cases, All, nat_eq, text_eq, ◌==◌, ==_refl, ==-cases, Text, Dict, lookup, insert, remove, ℕ,
  ◌≡◌, refl, sym, ◌∙◌, subst, inl, inr, true, none, some, [], ◌∷◌, arith,
}

-- What the dispatcher should hold for the calls.
abbrev pub entry : (ℕ → Text) → ℕ → CallState → SessionEntry ℕ
entry digits call_id c = record {
  call_id = digits call_id;
  edge_device_id = c.edge_device_id;
  on_call_event = call_id;
  on_dial_ack = some call_id;
}

unfoldable pub entries : (ℕ → Text) → Dict ℕ CallState → Dict Text (SessionEntry ℕ)
entries digits [] = []
entries digits ((k, c) ∷ calls) = (digits k, entry digits k c) ∷ entries digits calls

module _ (digits : ℕ → Text) (distinct : (m n : ℕ) → digits m ≡ digits n → m ≡ n) where
  digits-beq : (m n : ℕ) → (digits m == digits n) ≡ (m == n)
  digits-beq m n = elim (==-cases m n) [
    | inl same ↦ rw same (==_refl (digits n) ∙ sym (==_refl n))
    | inr other ↦ elim (==-cases (digits m) (digits n)) [
      | inl same ↦ let e : (m == n) ≡ true = rw (distinct m n same) (==_refl n) in cc
      | inr h ↦ h ∙ sym other
    ]
  ]

  pub lookup-entries :
      (k : ℕ) (calls : Dict ℕ CallState)
      → lookup (digits k) (entries digits calls)
        ≡ elim (lookup k calls) [ none ↦ none | some c ↦ some (entry digits k c) ]
  unfolding lookup entries
  lookup-entries k [] = refl
  lookup-entries k ((j, c) ∷ calls) =
      ground (arith, lookup-entries k calls, digits-beq j k, (nat_eq.beq_iff j k).0)

  pub insert-entries :
      (k : ℕ) (c : CallState) (calls : Dict ℕ CallState)
      → entries digits (insert k c calls)
        ≡ insert (digits k) (entry digits k c) (entries digits calls)
  unfolding insert entries
  insert-entries k c [] = refl
  insert-entries k c ((j, w) ∷ calls) =
      ground (arith, insert-entries k c calls, digits-beq j k, (nat_eq.beq_iff j k).0)

  pub remove-entries :
      (k : ℕ) (calls : Dict ℕ CallState)
      → entries digits (remove k calls) ≡ remove (digits k) (entries digits calls)
  unfolding remove entries
  remove-entries k [] = refl
  remove-entries k ((j, w) ∷ calls) = ground (arith, remove-entries k calls, digits-beq j k)

  pub update-entries :
      (k : ℕ) (c c' : CallState) (calls : Dict ℕ CallState)
      → lookup k calls ≡ some c
      → c'.edge_device_id ≡ c.edge_device_id
      → entries digits (insert k c' calls) ≡ entries digits calls
  unfolding lookup insert entries
  update-entries k c c' [] h same = cc
  update-entries k c c' ((j, w) ∷ calls) h same = ground (arith, update-entries k c c' calls)

abbrev pub AllEnded : Dict ℕ CallState → Type 0
AllEnded calls = All (λ (kc : ℕ × CallState). IsEnded kc.1) calls

pub insert-AllEnded :
    (k : ℕ) (c : CallState) (calls : Dict ℕ CallState)
    → IsEnded c
    → AllEnded calls
    → AllEnded (insert k c calls)
unfolding insert
insert-AllEnded k c [] hc h = (hc, tt)
insert-AllEnded k c ((j, w) ∷ calls) hc h = elim (Bool-cases (j == k)) [
  | inl same ↦ simp same (hc, h.1)
  | inr other ↦ simp other (h.0, insert-AllEnded k c calls hc h.1)
]

pub remove-AllEnded :
    (k : ℕ) (calls : Dict ℕ CallState) → AllEnded calls → AllEnded (remove k calls)
unfolding remove
remove-AllEnded k [] h = h
remove-AllEnded k ((j, w) ∷ calls) h = elim (Bool-cases (j == k)) [
  | inl same ↦ simp same (remove-AllEnded k calls h.1)
  | inr other ↦ simp other (h.0, remove-AllEnded k calls h.1)
]

pub lookup-AllEnded :
    (k : ℕ) (c : CallState) (calls : Dict ℕ CallState)
    → lookup k calls ≡ some c
    → AllEnded calls
    → IsEnded c
unfolding lookup
lookup-AllEnded k c [] found h = cc
lookup-AllEnded k c ((j, w) ∷ calls) found h = elim (Bool-cases (j == k)) [
  | inl same ↦
      let e : some w ≡ some c = rw same at found in let it : w ≡ c = cc in subst IsEnded it h.0
  | inr other ↦ lookup-AllEnded k c calls (rw other at found) h.1
]
