-- ===== src/Realtime/RtcTelephony/Dialling.antt =====
-- The dials that await their channel, while each number is dialled once.
use isales_engine.Realtime.RtcTelephony.{
  CallState, Client, Dialed, Surroundings, update, updated, purged, purge_call, lose_edge, hang_up,
  count, remove_one, dial_unless, begin_dial, bound, routed, joined, complete_dial, or_zero,
  target_edge, join_failed, set_device_for_session, Kind, DialAck, hear_event, hear_ack, Act,
  begins, completes, loses_edge, hangs_up, purges, hints, hears_event, hears_ack, act,
  on_call_event, on_dial_ack,
}
use isales_engine.Transport.SessionDispatcher.{
  Registered, registered, value_error, Delivery, event_to, ack_to, alert_to, heartbeat_to, dropped,
  register, handle_edge_message, call_event, dial_ack,
}
use isales_engine.Prelude.{
  ltb, if◌then◌else◌, Bool-cases, nat_eq, text_eq, ◌==◌, ==-cases, Text, lookup-insert,
  lookup-remove, lookup, insert, remove, ℕ, ◌+◌, ◌-◌, ◌≤◌, ◌<◌, min, ◌≡◌, refl, sym, ap, ◌∙◌, subst,
  inl, inr, Bool, true, false, Option, none, some, List, [], ◌∷◌, arith,
}

-- The numbers that a sequence of acts dials.
abbrev pub numbers : List Act → List ℕ
numbers [] = []
numbers (begins k ∷ acts) = k ∷ numbers acts
numbers (completes env k ∷ acts) = numbers acts
numbers (loses_edge k ∷ acts) = numbers acts
numbers (hangs_up k ∷ acts) = numbers acts
numbers (purges k ∷ acts) = numbers acts
numbers (hints k device_id ∷ acts) = numbers acts
numbers (hears_event identity frame ∷ acts) = numbers acts
numbers (hears_ack identity frame ∷ acts) = numbers acts

-- No number is dialled while a dial of it is under way or again later, and a call whose dial awaits
-- the channel is not active.
pub record IsSingle (coming : List ℕ) (client : Client) : Type 0 where
  pub once : (k : ℕ) → count k client.dialling + count k coming ≤ 1
  pub absent : (k : ℕ) → 0 < count k client.dialling → lookup k client.calls ≡ none

-- What registers no call.
record IsTame (c c' : Client) : Type 0 where
  same : c'.dialling ≡ c.dialling
  absent : (k : ℕ) → lookup k c.calls ≡ none → lookup k c'.calls ≡ none

tame-IsSingle :
    (coming : List ℕ) (c c' : Client) → IsTame c c' → IsSingle coming c → IsSingle coming c'
tame-IsSingle coming c c' t h = record {
  once = λ k. omega (arith, ap (λ d. count k d) t.same, h.once k);
  absent = λ k more. t.absent k (h.absent k (subst (λ d. 0 < count k d) t.same more));
}

updated-IsTame :
    (k : ℕ) (o : Option CallState) (f : CallState → CallState) (c : Client)
    → lookup k c.calls ≡ o
    → IsTame c (updated o k f c)
unfolding updated
updated-IsTame k none f c found = record { same = refl; absent = λ j h. h }
updated-IsTame k (some x) f c found = record {
  same = refl;
  absent = λ j h. elim (==-cases k j) [
    | inl e ↦
        let clash : some x ≡ none = sym found ∙ ap (λ i. lookup i c.calls) e ∙ h in
        absurd (let n : ⊥ = cc in n)
    | inr other ↦
        lookup-insert k j (f x) c.calls
        ∙ ap (λ b. if b then some (f x) else lookup j c.calls) other
        ∙ h
  ];
}

update-IsTame : (k : ℕ) (f : CallState → CallState) (c : Client) → IsTame c (update k f c)
unfolding update
update-IsTame k f c = updated-IsTame k (lookup k c.calls) f c refl

hear_event-IsTame : (d : Delivery ℕ Kind) (c : Client) → IsTame c (hear_event d c)
unfolding hear_event
hear_event-IsTame (event_to k frame) c = update-IsTame k (on_call_event frame.payload) c
hear_event-IsTame (ack_to k frame) c = record { same = refl; absent = λ j h. h }
hear_event-IsTame (alert_to k identity alert) c = record { same = refl; absent = λ j h. h }
hear_event-IsTame (heartbeat_to k identity beat) c = record { same = refl; absent = λ j h. h }
hear_event-IsTame dropped c = record { same = refl; absent = λ j h. h }

hear_ack-IsTame : (d : Delivery ℕ DialAck) (c : Client) → IsTame c (hear_ack d c)
unfolding hear_ack
hear_ack-IsTame (ack_to k frame) c = update-IsTame k (on_dial_ack frame.payload) c
hear_ack-IsTame (event_to k frame) c = record { same = refl; absent = λ j h. h }
hear_ack-IsTame (alert_to k identity alert) c = record { same = refl; absent = λ j h. h }
hear_ack-IsTame (heartbeat_to k identity beat) c = record { same = refl; absent = λ j h. h }
hear_ack-IsTame dropped c = record { same = refl; absent = λ j h. h }

count-remove_one :
    (k j : ℕ) (js : List ℕ)
    → count j (remove_one k js) ≡ count j js - (if k == j then min 1 (count k js) else 0)
unfolding count remove_one
count-remove_one k j [] = ground arith
count-remove_one k j (i ∷ js) =
    ground
      (arith, count-remove_one k j js, nat_eq.beq_iff i k, nat_eq.beq_iff k j, nat_eq.beq_iff i j)

begin-IsSingle :
    (o : Option CallState) (k : ℕ) (coming : List ℕ) (c : Client)
    → lookup k c.calls ≡ o
    → IsSingle (k ∷ coming) c
    → IsSingle coming (dial_unless o k c).1
unfolding dial_unless count
begin-IsSingle (some x) k coming c found h = record {
  once = λ j. omega (arith, h.once j);
  absent = h.absent;
}
begin-IsSingle none k coming c found h = record {
  once = λ j. omega (arith, h.once j);
  absent = λ j more. elim (==-cases k j) [
    | inl e ↦ subst (λ i. lookup i c.calls ≡ none) e found
    | inr other ↦ h.absent j (ground (arith, more, other))
  ];
}

-- What the completion of a dial leaves alone.
record IsLocal (k : ℕ) (c c' : Client) : Type 0 where
  same : c'.dialling ≡ c.dialling
  others : (j : ℕ) → (k == j) ≡ false → lookup j c'.calls ≡ lookup j c.calls

local-IsSingle :
    (k : ℕ) (coming : List ℕ) (c c' : Client)
    → IsLocal k (record c { dialling = remove_one k c.dialling }) c'
    → IsSingle coming c
    → IsSingle coming c'
local-IsSingle k coming c c' l h =
    let left : (j : ℕ)
        → count j c'.dialling
          ≡ count j c.dialling - (if k == j then min 1 (count k c.dialling) else 0) =
      λ j. ap (λ d. count j d) l.same ∙ count-remove_one k j c.dialling in
    record {
      once = λ j. omega (arith, left j, h.once j);
      absent = λ j more. elim (==-cases k j) [
        | inl e ↦ absurd (
            gone k j (count j c.dialling) (count j c'.dialling) (count k c.dialling) e
              (ap (λ i. count i c.dialling) e) (left j) (h.once j) more)
        | inr other ↦
            l.others j other
            ∙ h.absent j (
                omega (
                  arith,
                  more,
                  left j,
                  ap {B = ℕ} (λ b. if b then min 1 (count k c.dialling) else 0) other,
                ))
      ];
    }
  where
    gone :
        (k j n m o : ℕ)
        → k ≡ j
        → o ≡ n
        → m ≡ n - (if k == j then min 1 o else 0)
        → n + count j coming ≤ 1
        → 0 < m
        → ⊥
    gone k j n m o e same lower once more =
        let yes : (k == j) ≡ true = (nat_eq.beq_iff k j).1 e in
        omega (arith, same, once, more, lower, ap {B = ℕ} (λ b. if b then min 1 o else 0) yes)

module _ (digits : ℕ → Text) where
  purge-IsTame : (k : ℕ) (o : Option CallState) (c : Client) → IsTame c (purged digits o k c)
  unfolding purged
  purge-IsTame k none c = record { same = refl; absent = λ j h. h }
  purge-IsTame k (some x) c = record {
    same = refl;
    absent = λ j h. lookup-remove k j c.calls ∙ ground (arith, h);
  }

  bound-IsLocal :
      (k : ℕ) (r : Registered ℕ) (c c' : Client)
      → IsLocal k c c'
      → IsLocal k c (bound digits c' r).1
  unfolding bound
  bound-IsLocal k (registered d) c c' h = record { same = h.same; others = h.others }
  bound-IsLocal k value_error c c' h = h

  routed-IsLocal :
      (k device_id : ℕ) (edge : Option Text) (c : Client)
      → IsLocal k c (routed digits k device_id edge c).1
  unfolding routed
  routed-IsLocal k device_id none c = record { same = refl; others = λ j h. refl }
  routed-IsLocal k device_id (some edge) c =
      let state : CallState = record {
        call_id = k;
        device_id = device_id;
        edge_device_id = edge;
        events_q = [];
        closed = false;
        leave_asked = false;
      } in
      bound-IsLocal k (register (digits k) edge k (some k) c.dispatcher) c
        (record c { calls = insert k state c.calls })
        (record {
          same = refl;
          others = λ j other.
              lookup-insert k j state c.calls
              ∙ ap (λ b. if b then some state else lookup j c.calls) other;
        })

  joined-IsLocal : (env : Surroundings) (k : ℕ) (c : Client) → IsLocal k c (joined digits env k c).1
  unfolding joined
  joined-IsLocal env k c =
      let device_id : ℕ = or_zero (lookup k c.pending_devices) in
      let r =
        routed-IsLocal k device_id (target_edge env c.legacy_edge_device_id device_id)
          (record c { pending_devices = remove k c.pending_devices }) in
      record { same = r.same; others = r.others }

  either-IsSingle :
      (b : Bool) (coming : List ℕ) (r r' : Dialed × Client)
      → IsSingle coming r.1
      → IsSingle coming r'.1
      → IsSingle coming (if b then r else r').1
  either-IsSingle true coming r r' h h' = h
  either-IsSingle false coming r r' h h' = h'

  complete-IsSingle :
      (env : Surroundings) (k : ℕ) (coming : List ℕ) (c : Client)
      → IsSingle coming c
      → IsSingle coming (complete_dial digits env k c).1
  unfolding complete_dial
  complete-IsSingle env k coming c h =
      let c' : Client = record c { dialling = remove_one k c.dialling } in
      let failed : IsLocal k c' c' = record { same = refl; others = λ j other. refl } in
      elim (Bool-cases (ltb 0 (count k c.dialling))) [
        | inr idle ↦ rw idle h
        | inl waits ↦ rw waits (
            either-IsSingle env.joins coming (joined digits env k c') (join_failed, c')
              (local-IsSingle k coming c _ (joined-IsLocal env k c') h)
              (local-IsSingle k coming c c' failed h))
      ]

  pub act-IsSingle :
      (a : Act) (acts : List Act) (c : Client)
      → IsSingle (numbers (a ∷ acts)) c
      → IsSingle (numbers acts) (act digits a c)
  unfolding act begin_dial lose_edge hang_up purge_call set_device_for_session
  act-IsSingle (begins k) acts c h = begin-IsSingle (lookup k c.calls) k (numbers acts) c refl h
  act-IsSingle (completes env k) acts c h = complete-IsSingle env k (numbers acts) c h
  act-IsSingle (loses_edge k) acts c h = tame-IsSingle (numbers acts) c _ (update-IsTame k _ c) h
  act-IsSingle (hangs_up k) acts c h = tame-IsSingle (numbers acts) c _ (update-IsTame k _ c) h
  act-IsSingle (purges k) acts c h =
      tame-IsSingle (numbers acts) c _ (purge-IsTame k (lookup k c.calls) c) h
  act-IsSingle (hints k device_id) acts c h = record { once = h.once; absent = h.absent }
  act-IsSingle (hears_event identity frame) acts c h =
      tame-IsSingle (numbers acts) c _
        (hear_event-IsTame (handle_edge_message identity (call_event frame) c.dispatcher) c) h
  act-IsSingle (hears_ack identity frame) acts c h =
      tame-IsSingle (numbers acts) c _
        (hear_ack-IsTame (handle_edge_message identity (dial_ack frame) c.dispatcher) c) h
