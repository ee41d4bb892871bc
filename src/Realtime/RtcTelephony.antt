-- ===== src/Realtime/RtcTelephony.antt =====
-- isales_engine/realtime/rtc_telephony.py: the registry of calls of `RtcTelephonyClient`, the events
-- of each call, and what dialling, hanging up and the frames of the edges do to them. The audio is
-- in Realtime/Playout or left out.
pub mod Calls
pub mod Entries
pub mod Matched
pub mod Dialling
pub mod Reached
mod Examples
use isales_engine.Transport.SessionDispatcher.{
  Dispatcher, CallFrame, Edge2Cloud, call_event, dial_ack, Delivery, event_to, ack_to, alert_to,
  heartbeat_to, dropped, Registered, registered, value_error, new, register, deregister,
  handle_edge_message,
}
use isales_engine.Prelude.{
  ltb, if◌then◌else◌, nat_eq, text_eq, ◌==◌, Text, text, Dict, lookup, insert, remove, ℕ, ◌+◌, Bool,
  true, false, Option, none, some, List, [], ◌∷◌, ◌++◌,
}

pub data EventType : Type 0 where
  connected remote_hangup local_hangup device_error : EventType

pub record TelephonyEvent : Type 0 where
  pub type : EventType
  pub call_id : ℕ
  pub detail : Option Text

-- What stands in `events_q`.
pub data Item : Type 0 where
  event : TelephonyEvent → Item
  sentinel : Item

pub data HangupCause : Type 0 where
  unspecified no_answer user_busy network_out_of_order normal_clearing call_rejected : HangupCause
  unknown_cause : ℕ → HangupCause

-- `WhichOneof("kind")` of a `CallEvent`.
pub data Kind : Type 0 where
  on_connected ringing user_speaking_started user_speaking_stopped unknown_kind : Kind
  on_remote_hangup : HangupCause → Kind
  on_device_error : Text → Kind

pub record DialAck : Type 0 where
  pub accepted : Bool
  pub reason : Text

pub record CallState : Type 0 where
  pub call_id : ℕ
  pub device_id : ℕ
  pub edge_device_id : Text
  pub events_q : List Item
  pub closed : Bool
  pub leave_asked : Bool

-- `_HANGUP_CAUSE_DETAIL`
unfoldable pub hangup_cause_detail : HangupCause → Text
hangup_cause_detail unspecified = text "unspecified"
hangup_cause_detail no_answer = text "no_answer"
hangup_cause_detail user_busy = text "user_busy"
hangup_cause_detail network_out_of_order = text "network_out_of_order"
hangup_cause_detail normal_clearing = text "normal_clearing"
hangup_cause_detail call_rejected = text "call_rejected"
hangup_cause_detail (unknown_cause n) = text "unspecified"

unfoldable pub put : EventType → Option Text → CallState → CallState
put type detail c =
    let e : TelephonyEvent = record { type = type; call_id = c.call_id; detail = detail } in
    record c { events_q = c.events_q ++ event e ∷ [] }

-- A call that is closed has asked to leave its channel where it is joined, whether or not `leave`
-- then raises, which is suppressed. The flag and the sentinel are set before it first suspends.
unfoldable pub close_iterators : CallState → CallState
close_iterators c =
    if c.closed
    then c
    else record c { closed = true; events_q = c.events_q ++ sentinel ∷ []; leave_asked = true }

unfoldable pub on_call_event : Kind → CallState → CallState
unfolding put close_iterators hangup_cause_detail
on_call_event on_connected c = put connected none c
on_call_event (on_remote_hangup cause) c =
    close_iterators (put remote_hangup (some (hangup_cause_detail cause)) c)
on_call_event (on_device_error code) c = close_iterators (put device_error (some code) c)
on_call_event ringing c = c
on_call_event user_speaking_started c = c
on_call_event user_speaking_stopped c = c
on_call_event unknown_kind c = c

unfoldable pub or_rejected : Text → Text
or_rejected [] = text "dial_rejected"
or_rejected (c ∷ reason) = c ∷ reason

unfoldable pub on_dial_ack : DialAck → CallState → CallState
unfolding put close_iterators or_rejected
on_dial_ack ack c =
    if ack.accepted
    then c
    else close_iterators (put remote_hangup (some (or_rejected ack.reason)) c)

-- The callbacks that the dispatcher holds are named by the call to whose state they belong.
pub record Client : Type 0 where
  pub legacy_edge_device_id : Text
  pub dispatcher : Dispatcher ℕ
  pub calls : Dict ℕ CallState
  pub pending_devices : Dict ℕ ℕ
  pub dialling : List ℕ  -- the dials that await the channel

-- How a step of `dial` ends. `no_edge` is the exception of `resolve_edge_for_device`.
pub data Dialed : Type 0 where
  begun already_active not_begun join_failed no_edge register_failed dispatched : Dialed

-- What the surroundings do during a dial: whether the channel is joined, the edge that the server
-- knows for a device, and whether the command reaches the edge.
pub record Surroundings : Type 0 where
  pub joins : Bool
  pub resolve_edge_for_device : ℕ → Option Text
  pub sends : Bool

unfoldable pub or_zero : Option ℕ → ℕ
or_zero none = 0
or_zero (some n) = n

-- The legacy edge if one is configured, otherwise the one of the device.
unfoldable pub target_edge : Surroundings → Text → ℕ → Option Text
target_edge env [] device_id = env.resolve_edge_for_device device_id
target_edge env (c ∷ legacy) device_id = some (c ∷ legacy)

-- An operation on the state that `_calls.get` gives.
unfoldable pub updated : Option CallState → ℕ → (CallState → CallState) → Client → Client
unfolding insert
updated none call_id f client = client
updated (some c) call_id f client = record client { calls = insert call_id (f c) client.calls }

unfoldable pub update : ℕ → (CallState → CallState) → Client → Client
unfolding lookup updated
update call_id f client = updated (lookup call_id client.calls) call_id f client

-- How many dials of a number await the channel, and what is left once one of them goes on.
unfoldable pub count : ℕ → List ℕ → ℕ
count k [] = 0
count k (j ∷ js) = (if j == k then 1 else 0) + count k js

unfoldable pub remove_one : ℕ → List ℕ → List ℕ
remove_one k [] = []
remove_one k (j ∷ js) = let rest = remove_one k js in if j == k then js else j ∷ rest

-- `dial` up to its first await: the test whether the call is active.
unfoldable pub dial_unless : Option CallState → ℕ → Client → Dialed × Client
dial_unless (some c) call_id client = (already_active, client)
dial_unless none call_id client = (begun, record client { dialling = call_id ∷ client.dialling })

unfoldable pub begin_dial : ℕ → Client → Dialed × Client
unfolding dial_unless lookup
begin_dial call_id client = dial_unless (lookup call_id client.calls) call_id client

-- The edge is gone: the call is closed.
unfoldable pub lose_edge : ℕ → Client → Client
unfolding update put close_iterators
lose_edge call_id client =
    update call_id (λ c. close_iterators (put device_error (some (text "edge_disconnected")) c))
      client

-- `hangup` up to `_purge_call`. The cancel sent to the edge is best effort.
unfoldable pub hang_up : ℕ → Client → Client
unfolding update put close_iterators
hang_up call_id client = update call_id (λ c. close_iterators (put local_hangup none c)) client

-- `str` of a call's number is the parameter `digits`.
module _ (digits : ℕ → Text) where
  unfoldable pub purged : Option CallState → ℕ → Client → Client
  unfolding remove deregister
  purged none call_id client = client
  purged (some c) call_id client = record client {
    calls = remove call_id client.calls;
    dispatcher = deregister (digits call_id) client.dispatcher;
  }

  unfoldable pub purge_call : ℕ → Client → Client
  unfolding lookup purged
  purge_call call_id client = purged (lookup call_id client.calls) call_id client

  unfoldable pub bound : Client → Registered ℕ → Dialed × Client
  bound client (registered dispatcher) = (dispatched, record client { dispatcher = dispatcher })
  bound client value_error = (register_failed, client)

  unfoldable pub routed : ℕ → ℕ → Option Text → Client → Dialed × Client
  unfolding insert register bound
  routed call_id device_id none client = (no_edge, client)
  routed call_id device_id (some edge) client =
      let state : CallState = record {
        call_id = call_id;
        device_id = device_id;
        edge_device_id = edge;
        events_q = [];
        closed = false;
        leave_asked = false;
      } in
      bound (record client { calls = insert call_id state client.calls })
        (register (digits call_id) edge call_id (some call_id) client.dispatcher)

  unfoldable pub joined : Surroundings → ℕ → Client → Dialed × Client
  unfolding routed target_edge or_zero lookup remove
  joined env call_id client =
      let device_id = or_zero (lookup call_id client.pending_devices) in
      routed call_id device_id (target_edge env client.legacy_edge_device_id device_id)
        (record client { pending_devices = remove call_id client.pending_devices })

  -- `dial` from where `rtc_session.join` is done to the sending of the command, with no await
  -- between.
  unfoldable pub complete_dial : Surroundings → ℕ → Client → Dialed × Client
  unfolding joined count remove_one
  complete_dial env call_id client =
      let client' = record client { dialling = remove_one call_id client.dialling } in
      if ltb 0 (count call_id client.dialling)
      then (if env.joins then joined env call_id client' else (join_failed, client'))
      else (not_begun, client)

unfoldable pub set_device_for_session : ℕ → ℕ → Client → Client
unfolding insert
set_device_for_session call_id device_id client = record client {
  pending_devices = insert call_id device_id client.pending_devices;
}

-- The dispatcher awaits the callback of the call, if the frame is for one.
unfoldable pub hear_event : Delivery ℕ Kind → Client → Client
unfolding update on_call_event
hear_event (event_to call_id frame) client = update call_id (on_call_event frame.payload) client
hear_event (ack_to call_id frame) client = client
hear_event (alert_to call_id identity alert) client = client
hear_event (heartbeat_to call_id identity beat) client = client
hear_event dropped client = client

unfoldable pub hear_ack : Delivery ℕ DialAck → Client → Client
unfolding update on_dial_ack
hear_ack (ack_to call_id frame) client = update call_id (on_dial_ack frame.payload) client
hear_ack (event_to call_id frame) client = client
hear_ack (alert_to call_id identity alert) client = client
hear_ack (heartbeat_to call_id identity beat) client = client
hear_ack dropped client = client

-- The stretches of the operations between their awaits, which the event loop may interleave. A dial
-- begins, is completed, and where the command does not reach the edge loses it and purges; a hangup
-- closes and purges.
pub data Act : Type 0 where
  begins : ℕ → Act
  completes : Surroundings → ℕ → Act
  loses_edge hangs_up purges : ℕ → Act
  hints : ℕ → ℕ → Act
  hears_event : Text → CallFrame Kind → Act
  hears_ack : Text → CallFrame DialAck → Act

module _ (digits : ℕ → Text) where
  unfoldable pub act : Act → Client → Client
  unfolding begin_dial complete_dial lose_edge hang_up purge_call set_device_for_session hear_event
      hear_ack handle_edge_message
  act (begins call_id) client = (begin_dial call_id client).1
  act (completes env call_id) client = (complete_dial digits env call_id client).1
  act (loses_edge call_id) client = lose_edge call_id client
  act (hangs_up call_id) client = hang_up call_id client
  act (purges call_id) client = purge_call digits call_id client
  act (hints call_id device_id) client = set_device_for_session call_id device_id client
  act (hears_event identity frame) client =
      hear_event (handle_edge_message identity (call_event frame) client.dispatcher) client
  act (hears_ack identity frame) client =
      hear_ack (handle_edge_message identity (dial_ack frame) client.dispatcher) client

  unfoldable pub run : List Act → Client → Client
  unfolding act
  run [] client = client
  run (a ∷ acts) client = run acts (act a client)

-- The acts of an operation that nothing interrupts.
unfoldable pub dial : Surroundings → ℕ → List Act
dial env call_id =
    begins call_id
    ∷ completes env call_id
    ∷ (if env.sends then [] else loses_edge call_id ∷ purges call_id ∷ [])

unfoldable pub hangup : ℕ → List Act
hangup call_id = hangs_up call_id ∷ purges call_id ∷ []

unfoldable pub new_client : Text → Client
unfolding new
new_client legacy_edge_device_id = record {
  legacy_edge_device_id = legacy_edge_device_id;
  dispatcher = new;
  calls = [];
  pending_devices = [];
  dialling = [];
}
