-- ===== src/Realtime/RtcTelephony/Matched.antt =====
-- The registry of calls and that of the dispatcher agree.
use isales_engine.Realtime.RtcTelephony.Entries.{
  AllEnded, entry, entries, lookup-entries, insert-entries, remove-entries, update-entries,
  insert-AllEnded, remove-AllEnded, lookup-AllEnded,
}
use isales_engine.Realtime.RtcTelephony.Calls.{IsGood, last-IsGood}
use isales_engine.Realtime.RtcTelephony.{
  EventType, CallState, Client, Dialed, register_failed, Surroundings, update, updated, purged,
  purge_call, lose_edge, hang_up, count, bound, routed, joined, complete_dial,
}
use isales_engine.Transport.SessionDispatcher.{
  SessionEntry, registered, value_error, register, deregister, is_registered,
}
use isales_engine.Prelude.{
  ltb, if◌then◌else◌, ltb→lt, Bool-cases, nat_eq, text_eq, Text, text, lookup, insert, remove, ℕ,
  ◌<◌, ◌≡◌, refl, sym, ap, ◌∙◌, subst, ◌≢◌, inl, inr, Bool, true, false, Option, none, some, [],
}

-- The dispatcher holds exactly the calls of the client, each with its edge.
pub record IsMatched (digits : ℕ → Text) (client : Client) : Type 0 where
  pub matched : client.dispatcher.sessions ≡ entries digits client.calls
  pub ended : AllEnded client.calls

module _ (digits : ℕ → Text) (distinct : (m n : ℕ) → digits m ≡ digits n → m ≡ n) where
  updated-IsMatched :
      (k : ℕ) (o : Option CallState) (f : CallState → CallState) (client : Client)
      → lookup k client.calls ≡ o
      → IsGood f
      → IsMatched digits client
      → IsMatched digits (updated o k f client)
  unfolding updated
  updated-IsMatched k none f client found good h = h
  updated-IsMatched k (some c) f client found good h = record {
    matched =
        h.matched
        ∙ sym (update-entries digits distinct k c (f c) client.calls found (good.routed c));
    ended =
        insert-AllEnded k (f c) client.calls
          (good.ended c (lookup-AllEnded k c client.calls found h.ended)) h.ended;
  }

  pub update-IsMatched :
      (k : ℕ) (f : CallState → CallState) (client : Client)
      → IsGood f
      → IsMatched digits client
      → IsMatched digits (update k f client)
  unfolding update
  update-IsMatched k f client good h =
      updated-IsMatched k (lookup k client.calls) f client refl good h

  purged-IsMatched :
      (k : ℕ) (o : Option CallState) (client : Client)
      → IsMatched digits client
      → IsMatched digits (purged digits o k client)
  unfolding purged deregister
  purged-IsMatched k none client h = h
  purged-IsMatched k (some c) client h = record {
    matched =
        ap (λ d. remove (digits k) d) h.matched
        ∙ sym (remove-entries digits distinct k client.calls);
    ended = remove-AllEnded k client.calls h.ended;
  }

  pub purge_call-IsMatched :
      (k : ℕ) (client : Client)
      → IsMatched digits client
      → IsMatched digits (purge_call digits k client)
  unfolding purge_call
  purge_call-IsMatched k client h = purged-IsMatched k (lookup k client.calls) client h

  pub hang_up-IsMatched :
      (k : ℕ) (client : Client) → IsMatched digits client → IsMatched digits (hang_up k client)
  unfolding hang_up
  hang_up-IsMatched k client h =
      update-IsMatched k _ client (last-IsGood EventType.local_hangup none) h

  pub lose_edge-IsMatched :
      (k : ℕ) (client : Client) → IsMatched digits client → IsMatched digits (lose_edge k client)
  unfolding lose_edge
  lose_edge-IsMatched k client h =
      update-IsMatched k _ client
        (last-IsGood EventType.device_error (some (text "edge_disconnected"))) h

  -- What the completion of a dial of a call that is not active gives.
  abbrev pub IsDialed : Dialed × Client → Type 0
  IsDialed r = (r.0 ≢ register_failed) × IsMatched digits r.1

  either-IsDialed :
      (b : Bool) (r r' : Dialed × Client)
      → IsDialed r
      → IsDialed r'
      → IsDialed (if b then r else r')
  either-IsDialed true r r' h h' = h
  either-IsDialed false r r' h h' = h'

  routed-IsDialed :
      (k device_id : ℕ) (edge : Option Text) (client : Client)
      → lookup k client.calls ≡ none
      → IsMatched digits client
      → IsDialed (routed digits k device_id edge client)
  unfolding routed register is_registered bound
  routed-IsDialed k device_id none client absent h = ((λ e. cc), h)
  routed-IsDialed k device_id (some edge) client absent h =
      let state : CallState = record {
        call_id = k;
        device_id = device_id;
        edge_device_id = edge;
        events_q = [];
        closed = false;
        leave_asked = false;
      } in
      let free : lookup (digits k) client.dispatcher.sessions ≡ none =
        ap (λ d. lookup (digits k) d) h.matched
        ∙ lookup-entries digits distinct k client.calls
        ∙ ap
            (λ (o : Option CallState). elim o as (λ _. Option (SessionEntry ℕ)) [
              | none ↦ none
              | some c ↦ some (entry digits k c)
            ])
            absent in
      let registers : register (digits k) edge k (some k) client.dispatcher
          ≡ registered (record client.dispatcher {
            sessions = insert (digits k) (entry digits k state) client.dispatcher.sessions;
          }) =
        ap
          (λ (o : Option (SessionEntry ℕ)).
            if (elim o as (λ _. Bool) [ none ↦ false | some _ ↦ true ])
            then value_error
            else registered (record client.dispatcher {
              sessions = insert (digits k) (entry digits k state) client.dispatcher.sessions;
            }))
          free in
      subst (λ r. IsDialed (bound digits (record client { calls = insert k state client.calls }) r))
        (sym registers)
        (
          (λ e. cc),
          record {
            matched =
                ap (λ d. insert (digits k) (entry digits k state) d) h.matched
                ∙ sym (insert-entries digits distinct k state client.calls);
            ended =
                insert-AllEnded k state client.calls (record { ends = refl; leaves = refl })
                  h.ended;
          },
        )

  pub complete-IsDialed :
      (env : Surroundings) (k : ℕ) (client : Client)
      → (0 < count k client.dialling → lookup k client.calls ≡ none)
      → IsMatched digits client
      → IsDialed (complete_dial digits env k client)
  unfolding complete_dial joined
  complete-IsDialed env k client absent h = elim (Bool-cases (ltb 0 (count k client.dialling))) [
    | inl waits ↦
        let way : 0 < count k client.dialling = ltb→lt 0 (count k client.dialling) waits in
        rw waits (
          either-IsDialed env.joins _ _
            (routed-IsDialed k _ _ _ (absent way) (record { matched = h.matched; ended = h.ended }))
            ((λ e. cc), record { matched = h.matched; ended = h.ended }))
    | inr idle ↦ rw idle ((λ e. cc), h)
  ]
