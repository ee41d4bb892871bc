-- ===== src/Realtime/RtcTelephony/Reached.antt =====
-- What holds whatever is dialled, hung up and heard.
use isales_engine.Realtime.RtcTelephony.{
  Kind, DialAck, CallState, on_call_event, on_dial_ack, Client, register_failed, Surroundings,
  count, dial_unless, begin_dial, complete_dial, set_device_for_session, hear_event, hear_ack, Act,
  begins, completes, loses_edge, hangs_up, purges, hints, hears_event, hears_ack, act, run,
  new_client,
}
use isales_engine.Realtime.RtcTelephony.Dialling.{IsSingle, numbers, act-IsSingle}
use isales_engine.Realtime.RtcTelephony.Calls.{on_call_event-IsGood, on_dial_ack-IsGood}
use isales_engine.Realtime.RtcTelephony.Entries.{AllEnded, entry, entries, lookup-entries}
use isales_engine.Realtime.RtcTelephony.Matched.{
  IsMatched, update-IsMatched, hang_up-IsMatched, lose_edge-IsMatched, purge_call-IsMatched,
  complete-IsDialed,
}
use isales_engine.Transport.SessionDispatcher.{
  Delivery, event_to, ack_to, alert_to, heartbeat_to, dropped, new, handle_edge_message, call_event,
  dial_ack,
}
use isales_engine.Prelude.{
  nat_eq, text_eq, Text, lookup, ℕ, ◌≤◌, ◌≡◌, refl, ap, ◌∙◌, ◌≢◌, Option, none, some, List, [], ◌∷◌,
  arith,
}

-- The dispatcher would deliver the frames of a call exactly if the call is active, and then from the
-- edge that it was dialled over. The events of an active call end once, exactly when it is closed,
-- and then it has asked to leave its channel. No dial that is completed is refused by the dispatcher.
pub record IsReached (digits : ℕ → Text) (client : Client) : Type 0 where
  pub matched :
      (k : ℕ)
      → lookup (digits k) client.dispatcher.sessions
        ≡ elim (lookup k client.calls) [ none ↦ none | some c ↦ some (entry digits k c) ]
  pub ended : AllEnded client.calls
  pub dials : (env : Surroundings) (k : ℕ) → (complete_dial digits env k client).0 ≢ register_failed

module _ (digits : ℕ → Text) (distinct : (m n : ℕ) → digits m ≡ digits n → m ≡ n) where
  hear_event-IsMatched :
      (d : Delivery ℕ Kind) (client : Client)
      → IsMatched digits client
      → IsMatched digits (hear_event d client)
  unfolding hear_event
  hear_event-IsMatched (event_to k frame) client h =
      update-IsMatched digits distinct k (on_call_event frame.payload) client
        (on_call_event-IsGood frame.payload) h
  hear_event-IsMatched (ack_to k frame) client h = h
  hear_event-IsMatched (alert_to k identity alert) client h = h
  hear_event-IsMatched (heartbeat_to k identity beat) client h = h
  hear_event-IsMatched dropped client h = h

  hear_ack-IsMatched :
      (d : Delivery ℕ DialAck) (client : Client)
      → IsMatched digits client
      → IsMatched digits (hear_ack d client)
  unfolding hear_ack
  hear_ack-IsMatched (ack_to k frame) client h =
      update-IsMatched digits distinct k (on_dial_ack frame.payload) client
        (on_dial_ack-IsGood frame.payload) h
  hear_ack-IsMatched (event_to k frame) client h = h
  hear_ack-IsMatched (alert_to k identity alert) client h = h
  hear_ack-IsMatched (heartbeat_to k identity beat) client h = h
  hear_ack-IsMatched dropped client h = h

  begin-IsMatched :
      (o : Option CallState) (k : ℕ) (client : Client)
      → IsMatched digits client
      → IsMatched digits (dial_unless o k client).1
  unfolding dial_unless
  begin-IsMatched (some c) k client h = h
  begin-IsMatched none k client h = record { matched = h.matched; ended = h.ended }

  act-IsMatched :
      (a : Act) (acts : List Act) (client : Client)
      → IsSingle (numbers (a ∷ acts)) client
      → IsMatched digits client
      → IsMatched digits (act digits a client)
  unfolding act begin_dial set_device_for_session
  act-IsMatched (begins k) acts client single h = begin-IsMatched (lookup k client.calls) k client h
  act-IsMatched (completes env k) acts client single h =
      (complete-IsDialed digits distinct env k client (single.absent k) h).1
  act-IsMatched (loses_edge k) acts client single h = lose_edge-IsMatched digits distinct k client h
  act-IsMatched (hangs_up k) acts client single h = hang_up-IsMatched digits distinct k client h
  act-IsMatched (purges k) acts client single h = purge_call-IsMatched digits distinct k client h
  act-IsMatched (hints k device_id) acts client single h = record {
    matched = h.matched;
    ended = h.ended;
  }
  act-IsMatched (hears_event identity frame) acts client single h =
      hear_event-IsMatched (handle_edge_message identity (call_event frame) client.dispatcher)
        client h
  act-IsMatched (hears_ack identity frame) acts client single h =
      hear_ack-IsMatched (handle_edge_message identity (dial_ack frame) client.dispatcher) client h

  run-IsMatched :
      (acts : List Act) (client : Client)
      → IsSingle (numbers acts) client
      → IsMatched digits client
      → IsSingle [] (run digits acts client) × IsMatched digits (run digits acts client)
  unfolding run
  run-IsMatched [] client single h = (single, h)
  run-IsMatched (a ∷ acts) client single h =
      run-IsMatched acts (act digits a client) (act-IsSingle digits a acts client single)
        (act-IsMatched a acts client single h)

-- If each number is dialled at most once, and `str` gives different numbers different texts: whatever
-- is dialled, hung up, hinted and heard, in whatever order the stretches of these operations between
-- their awaits are interleaved, and however the channel, the mapping of devices and the sending
-- fare, the client and the dispatcher agree on the active calls and their edges, each active call has
-- one end of its events exactly if it is closed, and no dial fails to register.
pub run-IsReached :
    (digits : ℕ → Text)
    → ((m n : ℕ) → digits m ≡ digits n → m ≡ n)
    → (legacy_edge_device_id : Text) (acts : List Act) → ((k : ℕ) → count k (numbers acts) ≤ 1)
    → IsReached digits (run digits acts (new_client legacy_edge_device_id))
unfolding lookup
run-IsReached digits distinct legacy acts once =
    let client = run digits acts (new_client legacy) in
    let empty : IsMatched digits (new_client legacy) =
      unfold new_client new entries in record { matched = refl; ended = tt } in
    let idle : IsSingle (numbers acts) (new_client legacy) =
      unfold new_client count in
      record { once = λ k. omega (arith, once k); absent = λ k more. refl } in
    let (single, h) = run-IsMatched digits distinct acts (new_client legacy) idle empty in
    record {
      matched = λ k.
          ap (λ d. lookup (digits k) d) h.matched ∙ lookup-entries digits distinct k client.calls;
      ended = h.ended;
      dials = λ env k. (complete-IsDialed digits distinct env k client (single.absent k) h).0;
    }
