-- ===== src/Realtime/RtcTelephony/Examples.antt =====
-- Tests of the registry of calls, and the result about it at a concrete input.
use isales_engine.Realtime.RtcTelephony.{
  Surroundings, Act, begins, completes, hints, hears_event, on_connected, on_remote_hangup,
  normal_clearing, run, act, new_client, dial, dial_unless, begin_dial, complete_dial, count,
  remove_one, joined, routed, bound, target_edge, or_zero, update, updated, hear_event,
  on_call_event, put, close_iterators, hangup_cause_detail, set_device_for_session, CallState,
  lose_edge, purge_call, purged, register_failed,
}
use isales_engine.Realtime.RtcTelephony.Dialling.{numbers}
use isales_engine.Realtime.RtcTelephony.Reached.{IsReached, run-IsReached}
use isales_engine.Transport.SessionDispatcher.{
  register, deregister, handle_edge_message, dispatch_call_event, is_registered, new,
}
use isales_engine.Prelude.{
  length, nat_eq, text_eq, Text, text, lookup, insert, remove, ℕ, ◌≤◌, ◌≡◌, refl, true, false, none,
  some, List, [], ◌∷◌, map, arith,
}

abbrev digits : ℕ → Text
digits n = n ∷ []

abbrev connected_edge : Surroundings
connected_edge = record {
  joins = true;
  resolve_edge_for_device = λ d. some (text "edge");
  sends = true;
}

abbrev no_mapping : Surroundings
no_mapping = record connected_edge { resolve_edge_for_device = λ d. none }

abbrev unreachable : Surroundings
unreachable = record connected_edge { sends = false }

abbrev a_call : List Act
a_call =
    hints 7 3
    ∷ begins 7
    ∷ completes connected_edge 7
    ∷ hears_event (text "edge") (record { call_id = digits 7; payload = on_connected })
    ∷ hears_event (text "other") (record { call_id = digits 7; payload = on_connected })
    ∷ hears_event (text "edge")
        (record { call_id = digits 7; payload = on_remote_hangup normal_clearing })
    ∷ []

one_dial : (k : ℕ) → count k (numbers a_call) ≤ 1
unfolding count
one_dial k = ground arith

run-IsReached_example : IsReached digits (run digits a_call (new_client []))
run-IsReached_example = run-IsReached digits (λ m n h. cc) [] a_call one_dial

-- Two events and the sentinel; the frame of the other edge is not among them.
three_items :
    map (λ (kc : ℕ × CallState). length kc.1.events_q) (run digits a_call (new_client [])).calls
    ≡ 3 ∷ []
unfolding run act set_device_for_session begin_dial dial_unless complete_dial count remove_one
    joined routed bound target_edge or_zero register is_registered handle_edge_message
    dispatch_call_event hear_event update updated on_call_event put close_iterators
    hangup_cause_detail new_client new lookup insert remove
three_items = refl

-- A dial that finds no edge leaves nothing but the hint used up.
no_edge_test : run digits (hints 7 3 ∷ dial no_mapping 7) (new_client []) ≡ new_client []
unfolding dial run act set_device_for_session begin_dial dial_unless complete_dial count remove_one
    joined routed target_edge or_zero new_client new lookup insert remove
no_edge_test = refl

edge_gone_test : run digits (dial unreachable 7) (new_client []) ≡ new_client []
unfolding dial run act begin_dial dial_unless complete_dial count remove_one joined routed bound
    target_edge or_zero register is_registered lose_edge purge_call purged deregister update updated
    put close_iterators new_client new lookup insert remove
edge_gone_test = refl

-- Two dials of a number that overlap: the second cannot register.
overlap_test :
    (complete_dial digits connected_edge 7
      (run digits (begins 7 ∷ begins 7 ∷ completes connected_edge 7 ∷ []) (new_client []))).0
    ≡ register_failed
unfolding run act begin_dial dial_unless complete_dial count remove_one joined routed bound
    target_edge or_zero register is_registered new_client new lookup insert remove
overlap_test = refl
