-- ===== src/Transport/SessionDispatcher.antt =====
-- isales_engine/transport/session_dispatcher.py: which callback gets a frame from an edge. The
-- callbacks are of a type C and only named; what a frame holds beside its `call_id` is of a type P.
pub mod Isolation
mod Examples
use isales_engine.Prelude.{
  if◌then◌else◌, ◌==◌, nat_eq, text_eq, Text, Dict, lookup, insert, remove, Bool, true, false,
  Option, none, some, [],
}

pub record SessionEntry (C : Type 0) : Type 0 where
  pub call_id : Text
  pub edge_device_id : Text
  pub on_call_event : C
  pub on_dial_ack : Option C

pub record Dispatcher (C : Type 0) : Type 0 where
  pub sessions : Dict Text (SessionEntry C)
  pub hardware_alert_cb : Option C
  pub heartbeat_cb : Option C

pub record CallFrame (P : Type 0) : Type 0 where
  pub call_id : Text
  pub payload : P

-- `msg.WhichOneof("payload")`, with the payload
pub data Edge2Cloud (P : Type 0) : Type 0 where
  call_event dial_ack : CallFrame P → Edge2Cloud P
  hardware_alert heartbeat : P → Edge2Cloud P
  unknown_kind : Text → Edge2Cloud P
  empty : Edge2Cloud P

-- The one callback that is awaited, with its arguments, or none.
pub data Delivery (C P : Type 0) : Type 0 where
  event_to ack_to : C → CallFrame P → Delivery C P
  alert_to heartbeat_to : C → Text → P → Delivery C P
  dropped : Delivery C P

pub data Registered (C : Type 0) : Type 0 where
  registered : Dispatcher C → Registered C
  value_error : Registered C

module _ {C : Type 0} where
  unfoldable pub new : Dispatcher C
  new = record { sessions = []; hardware_alert_cb = none; heartbeat_cb = none }

  unfoldable pub is_registered : Text → Dispatcher C → Bool
  unfolding lookup
  is_registered call_id d = elim (lookup call_id d.sessions) [ none ↦ false | some _ ↦ true ]

  unfoldable pub register : Text → Text → C → Option C → Dispatcher C → Registered C
  unfolding is_registered insert
  register call_id edge_device_id on_call_event on_dial_ack d =
      let entry : SessionEntry C = record {
        call_id = call_id;
        edge_device_id = edge_device_id;
        on_call_event = on_call_event;
        on_dial_ack = on_dial_ack;
      } in
      if is_registered call_id d
      then value_error
      else registered (record d { sessions = insert call_id entry d.sessions })

  unfoldable pub deregister : Text → Dispatcher C → Dispatcher C
  unfolding remove
  deregister call_id d = record d { sessions = remove call_id d.sessions }

  unfoldable pub on_hardware_alert : C → Dispatcher C → Dispatcher C
  on_hardware_alert callback d = record d { hardware_alert_cb = some callback }

  unfoldable pub on_heartbeat : C → Dispatcher C → Dispatcher C
  on_heartbeat callback d = record d { heartbeat_cb = some callback }

module _ {C P : Type 0} where
  unfoldable pub dispatch_call_event : Text → CallFrame P → Dispatcher C → Delivery C P
  unfolding lookup
  dispatch_call_event identity event d = elim (lookup event.call_id d.sessions) [
    | none ↦ dropped
    | some entry ↦
        if entry.edge_device_id == identity then event_to entry.on_call_event event else dropped
  ]

  unfoldable pub dispatch_dial_ack : Text → CallFrame P → Dispatcher C → Delivery C P
  unfolding lookup
  dispatch_dial_ack identity ack d = elim (lookup ack.call_id d.sessions) [
    | none ↦ dropped
    | some entry ↦ elim entry.on_dial_ack [
      | none ↦ dropped
      | some callback ↦ if entry.edge_device_id == identity then ack_to callback ack else dropped
    ]
  ]

  unfoldable pub dispatch_hardware_alert : Text → P → Dispatcher C → Delivery C P
  dispatch_hardware_alert identity alert d = elim d.hardware_alert_cb [
    | none ↦ dropped
    | some callback ↦ alert_to callback identity alert
  ]

  unfoldable pub dispatch_heartbeat : Text → P → Dispatcher C → Delivery C P
  dispatch_heartbeat identity beat d = elim d.heartbeat_cb [
    | none ↦ dropped
    | some callback ↦ heartbeat_to callback identity beat
  ]

  -- `identity` is the `edge_device_id` that the transport authenticated.
  unfoldable pub handle_edge_message : Text → Edge2Cloud P → Dispatcher C → Delivery C P
  unfolding dispatch_call_event dispatch_dial_ack dispatch_hardware_alert dispatch_heartbeat
  handle_edge_message identity (call_event event) d = dispatch_call_event identity event d
  handle_edge_message identity (dial_ack ack) d = dispatch_dial_ack identity ack d
  handle_edge_message identity (hardware_alert alert) d = dispatch_hardware_alert identity alert d
  handle_edge_message identity (heartbeat beat) d = dispatch_heartbeat identity beat d
  handle_edge_message identity (unknown_kind kind) d = dropped
  handle_edge_message identity empty d = dropped
