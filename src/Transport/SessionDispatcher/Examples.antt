-- ===== src/Transport/SessionDispatcher/Examples.antt =====
-- Two calls of two edges, and the theorems on isales_engine/transport/session_dispatcher.py at them.
use isales_engine.Transport.SessionDispatcher.{
  SessionEntry, Dispatcher, CallFrame, dial_ack, registered, register, handle_edge_message,
}
use isales_engine.Transport.SessionDispatcher.Isolation.{
  Reaches, Owns, handle_edge_message-isolated,
}
use isales_engine.Prelude.{
  nat_eq, text_eq, ◌==◌, Text, text, ℕ, ◌≡◌, refl, ap, ◌≢◌, true, false, none, some, [], ◌∷◌,
}

abbrev c1 : Text
c1 = text "c-1"

abbrev c2 : Text
c2 = text "c-2"

abbrev edge1 : Text
edge1 = text "edge-1"

abbrev edge2 : Text
edge2 = text "edge-2"

abbrev first_entry : SessionEntry ℕ
first_entry = record {
  call_id = c1;
  edge_device_id = edge1;
  on_call_event = 10;
  on_dial_ack = some 11;
}

abbrev second_entry : SessionEntry ℕ
second_entry = record {
  call_id = c2;
  edge_device_id = edge2;
  on_call_event = 20;
  on_dial_ack = none;
}

abbrev one_call : Dispatcher ℕ
one_call = record {
  sessions = (c1, first_entry) ∷ [];
  hardware_alert_cb = none;
  heartbeat_cb = none;
}

abbrev two_calls : Dispatcher ℕ
two_calls = record one_call { sessions = (c1, first_entry) ∷ (c2, second_entry) ∷ [] }

abbrev frame : CallFrame ℕ
frame = record { call_id = c1; payload = 7 }

abbrev last_frame : CallFrame ℕ
last_frame = record { call_id = c2; payload = 7 }

reached : Reaches (handle_edge_message edge1 (dial_ack frame) two_calls) 11 frame
unfolding handle_edge_message
reached = (refl, refl)

handle_edge_message-isolated_example : Owns two_calls edge1 11 frame
handle_edge_message-isolated_example =
    handle_edge_message-isolated edge1 (dial_ack frame) two_calls 11 frame reached

registers : register c2 edge2 20 none one_call ≡ registered two_calls
unfolding register
registers = refl

other_call : some c1 ≢ some c2
other_call e =
    let apart : true ≡ false = ap (λ o. elim o [ none ↦ false | some t ↦ t == c1 ]) e in cc
