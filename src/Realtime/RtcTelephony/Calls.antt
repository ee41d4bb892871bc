-- ===== src/Realtime/RtcTelephony/Calls.antt =====
-- What the operations on one call do to its events.
use isales_engine.Realtime.RtcTelephony.{
  EventType, Item, event, sentinel, Kind, on_connected, ringing, user_speaking_started,
  user_speaking_stopped, unknown_kind, on_remote_hangup, on_device_error, DialAck, CallState, put,
  close_iterators, on_call_event, or_rejected, on_dial_ack, hangup_cause_detail,
}
use isales_engine.Prelude.{
  if◌then◌else◌, Bool-cases, nat_eq, text_eq, Text, ℕ, suc, ◌+◌, ◌≡◌, refl, ap, ◌∙◌, inl, inr, Bool,
  true, false, Option, none, some, List, [], ◌∷◌, ◌++◌, arith,
}

abbrev pub sentinels : List Item → ℕ
sentinels [] = 0
sentinels (event e ∷ q) = sentinels q
sentinels (sentinel ∷ q) = suc (sentinels q)

-- The events of a call end once exactly when it is closed, and then it has asked to leave its
-- channel.
pub record IsEnded (c : CallState) : Type 0 where
  pub ends : sentinels c.events_q ≡ (if c.closed then 1 else 0)
  pub leaves : c.leave_asked ≡ c.closed

sentinels-append : (xs ys : List Item) → sentinels (xs ++ ys) ≡ sentinels xs + sentinels ys
sentinels-append [] ys = omega arith
sentinels-append (event e ∷ xs) ys = omega (arith, sentinels-append xs ys)
sentinels-append (sentinel ∷ xs) ys = omega (arith, sentinels-append xs ys)

-- What an operation on one call may do to it.
pub record IsGood (f : CallState → CallState) : Type 0 where
  pub ended : (c : CallState) → IsEnded c → IsEnded (f c)
  pub routed : (c : CallState) → (f c).edge_device_id ≡ c.edge_device_id

put-IsGood : (type : EventType) (detail : Option Text) → IsGood (put type detail)
unfolding put
put-IsGood type detail = record {
  ended = λ c h. record {
    ends = sentinels-append c.events_q _ ∙ omega (arith, h.ends);
    leaves = h.leaves;
  };
  routed = λ c. refl;
}

close_iterators-IsGood : IsGood close_iterators
unfolding close_iterators
close_iterators-IsGood = record {
  ended = λ c h. elim (Bool-cases c.closed) [
    | inl closed ↦ simp closed h
    | inr going ↦ simp going (record {
      ends =
          sentinels-append c.events_q (sentinel ∷ [])
          ∙ omega (arith, h.ends, ap {B = ℕ} (λ b. if b then 1 else 0) going);
      leaves = refl;
    })
  ];
  routed = λ c. ground arith;
}

pub then-IsGood : (f g : CallState → CallState) → IsGood f → IsGood g → IsGood (λ c. g (f c))
then-IsGood f g hf hg = record {
  ended = λ c h. hg.ended (f c) (hf.ended c h);
  routed = λ c. hg.routed (f c) ∙ hf.routed c;
}

same-IsGood : IsGood (λ c. c)
same-IsGood = record { ended = λ c h. h; routed = λ c. refl }

-- An event that ends a call.
pub last-IsGood :
    (type : EventType) (detail : Option Text) → IsGood (λ c. close_iterators (put type detail c))
last-IsGood type detail =
    then-IsGood (put type detail) close_iterators (put-IsGood type detail) close_iterators-IsGood

pub on_call_event-IsGood : (kind : Kind) → IsGood (on_call_event kind)
unfolding on_call_event
on_call_event-IsGood on_connected = put-IsGood EventType.connected none
on_call_event-IsGood (on_remote_hangup cause) =
    last-IsGood EventType.remote_hangup (some (hangup_cause_detail cause))
on_call_event-IsGood (on_device_error code) = last-IsGood EventType.device_error (some code)
on_call_event-IsGood ringing = same-IsGood
on_call_event-IsGood user_speaking_started = same-IsGood
on_call_event-IsGood user_speaking_stopped = same-IsGood
on_call_event-IsGood unknown_kind = same-IsGood

pub on_dial_ack-IsGood : (ack : DialAck) → IsGood (on_dial_ack ack)
unfolding on_dial_ack
on_dial_ack-IsGood ack = go ack.accepted
  where
    go :
        (b : Bool)
        → IsGood (λ c.
          if b
          then c
          else close_iterators (put EventType.remote_hangup (some (or_rejected ack.reason)) c))
    go true = same-IsGood
    go false = last-IsGood EventType.remote_hangup (some (or_rejected ack.reason))
