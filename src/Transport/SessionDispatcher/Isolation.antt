-- ===== src/Transport/SessionDispatcher/Isolation.antt =====
-- Who gets a frame, and that calls do not disturb each other.
use isales_engine.Transport.SessionDispatcher.{
  SessionEntry, Dispatcher, CallFrame, Edge2Cloud, call_event, dial_ack, hardware_alert, heartbeat,
  unknown_kind, empty, Delivery, event_to, ack_to, alert_to, heartbeat_to, dropped, Registered,
  registered, value_error, is_registered, register, deregister, dispatch_call_event,
  dispatch_dial_ack, handle_edge_message, dispatch_hardware_alert, dispatch_heartbeat,
}
use isales_engine.Prelude.{
  if◌then◌else◌, Bool-cases, Option-cases, ◌==◌, nat_eq, text_eq, ==_refl, ==-cases, Text,
  lookup-insert, lookup-insert_self, lookup-remove, lookup, insert, ◌≡◌, refl, sym, ap, ◌∙◌, subst,
  ◌≢◌, ◌⊎◌, inl, inr, Option, none, some,
}

-- A callback of a call's session is awaited.
abbrev pub Reaches : {C P : Type 0} → Delivery C P → C → CallFrame P → Type 0
Reaches (event_to c frame) callback f = (c ≡ callback) × (frame ≡ f)
Reaches (ack_to c frame) callback f = (c ≡ callback) × (frame ≡ f)
Reaches (alert_to c identity p) callback f = ⊥
Reaches (heartbeat_to c identity p) callback f = ⊥
Reaches dropped callback f = ⊥

-- The call that a frame is about.
abbrev pub about : {P : Type 0} → Edge2Cloud P → Option Text
about (call_event event) = some event.call_id
about (dial_ack ack) = some ack.call_id
about (hardware_alert alert) = none
about (heartbeat beat) = none
about (unknown_kind kind) = none
about empty = none

-- What makes a session's callback reachable.
abbrev pub Owns : {C P : Type 0} → Dispatcher C → Text → C → CallFrame P → Type 0
Owns {C} d identity callback frame =
    (entry : SessionEntry C) × (lookup frame.call_id d.sessions ≡ some entry)
    × (entry.edge_device_id ≡ identity)
    × ((entry.on_call_event ≡ callback) ⊎ (entry.on_dial_ack ≡ some callback))

module _ {C P : Type 0} (identity : Text) (d : Dispatcher C) where
  dispatch_call_event-cases :
      (event : CallFrame P)
      → (dispatch_call_event identity event d ≡ dropped)
        ⊎ ((entry : SessionEntry C) × (lookup event.call_id d.sessions ≡ some entry)
            × (entry.edge_device_id ≡ identity)
            × (dispatch_call_event identity event d ≡ event_to entry.on_call_event event))
  unfolding dispatch_call_event
  dispatch_call_event-cases event = elim (Option-cases (lookup event.call_id d.sessions)) [
    | inl e ↦ inl (rw (e, dispatch_call_event) refl)
    | inr e ↦ elim (==-cases e.0.edge_device_id identity) [
      | inl same ↦ inr (e.0, e.1, same, rw (e.1, dispatch_call_event, same, ==_refl identity) refl)
      | inr other ↦ inl (rw (e.1, dispatch_call_event, other) refl)
    ]
  ]

  dispatch_dial_ack-cases :
      (ack : CallFrame P)
      → (dispatch_dial_ack identity ack d ≡ dropped)
        ⊎ ((entry : SessionEntry C) × (callback : C) × (lookup ack.call_id d.sessions ≡ some entry)
            × (entry.edge_device_id ≡ identity)
            × (entry.on_dial_ack ≡ some callback)
            × (dispatch_dial_ack identity ack d ≡ ack_to callback ack))
  unfolding dispatch_dial_ack
  dispatch_dial_ack-cases ack = elim (Option-cases (lookup ack.call_id d.sessions)) [
    | inl e ↦ inl (rw (e, dispatch_dial_ack) refl)
    | inr e ↦ elim (Option-cases e.0.on_dial_ack) [
      | inl unset ↦ inl (rw (e.1, dispatch_dial_ack, unset) refl)
      | inr c ↦ elim (==-cases e.0.edge_device_id identity) [
        | inl same ↦ inr (
          e.0,
          c.0,
          e.1,
          same,
          c.1,
          rw (e.1, dispatch_dial_ack, c.1, same, ==_refl identity) refl,
        )
        | inr other ↦ inl (rw (e.1, dispatch_dial_ack, c.1, other) refl)
      ]
    ]
  ]

  module _ (callback : C) (frame : CallFrame P) where
    event-isolated :
        (event : CallFrame P)
        → Reaches (dispatch_call_event identity event d) callback frame
        → Owns d identity callback frame
    event-isolated event h = elim (dispatch_call_event-cases event) [
      | inl e ↦ absurd (subst (λ x. Reaches x callback frame) e h)
      | inr e ↦
          let at : (e.0.on_call_event ≡ callback) × (event ≡ frame) =
            subst (λ x. Reaches x callback frame) e.3 h in
          (e.0, ap (λ f. lookup f.call_id d.sessions) (sym at.1) ∙ e.1, e.2, inl at.0)
    ]

    ack-isolated :
        (ack : CallFrame P)
        → Reaches (dispatch_dial_ack identity ack d) callback frame
        → Owns d identity callback frame
    ack-isolated ack h = elim (dispatch_dial_ack-cases ack) [
      | inl e ↦ absurd (subst (λ x. Reaches x callback frame) e h)
      | inr e ↦
          let at : (e.1 ≡ callback) × (ack ≡ frame) = subst (λ x. Reaches x callback frame) e.5 h in
          (
            e.0,
            ap (λ f. lookup f.call_id d.sessions) (sym at.1) ∙ e.2,
            e.3,
            inr (e.4 ∙ ap some at.0),
          )
    ]

    alert-isolated :
        (alert : P)
        → Reaches (dispatch_hardware_alert identity alert d) callback frame
        → Owns d identity callback frame
    unfolding dispatch_hardware_alert
    alert-isolated alert h = elim (Option-cases d.hardware_alert_cb) [
      | inl e ↦ absurd (
          subst {A = Option C}
            (λ o.
              Reaches {P = P} (elim o [ none ↦ dropped | some c ↦ alert_to c identity alert ])
                callback frame)
            e h)
      | inr e ↦ absurd (
          subst {A = Option C}
            (λ o.
              Reaches {P = P} (elim o [ none ↦ dropped | some c ↦ alert_to c identity alert ])
                callback frame)
            e.1 h)
    ]

    heartbeat-isolated :
        (beat : P)
        → Reaches (dispatch_heartbeat identity beat d) callback frame
        → Owns d identity callback frame
    unfolding dispatch_heartbeat
    heartbeat-isolated beat h = elim (Option-cases d.heartbeat_cb) [
      | inl e ↦ absurd (
          subst {A = Option C}
            (λ o.
              Reaches {P = P} (elim o [ none ↦ dropped | some c ↦ heartbeat_to c identity beat ])
                callback frame)
            e h)
      | inr e ↦ absurd (
          subst {A = Option C}
            (λ o.
              Reaches {P = P} (elim o [ none ↦ dropped | some c ↦ heartbeat_to c identity beat ])
                callback frame)
            e.1 h)
    ]

module _ {C : Type 0} where
  abbrev entry_of : Text → Text → C → Option C → SessionEntry C
  entry_of call_id edge on_event on_ack = record {
    call_id = call_id;
    edge_device_id = edge;
    on_call_event = on_event;
    on_dial_ack = on_ack;
  }

  abbrev dispatcher_of : Dispatcher C → Registered C → Dispatcher C
  dispatcher_of d (registered x) = x
  dispatcher_of d value_error = d

  register-inserts :
      (call_id edge : Text) (on_event : C) (on_ack : Option C) (d d2 : Dispatcher C)
      → register call_id edge on_event on_ack d ≡ registered d2
      → record d { sessions = insert call_id (entry_of call_id edge on_event on_ack) d.sessions }
        ≡ d2
  unfolding register
  register-inserts call_id edge on_event on_ack d d2 done =
      elim (Bool-cases (is_registered call_id d)) [
        | inl bound ↦ absurd (cc (done, bound))
        | inr free ↦
            let e : register call_id edge on_event on_ack d
                ≡ registered (record d {
                  sessions = insert call_id (entry_of call_id edge on_event on_ack) d.sessions;
                }) =
              rw (free, register) refl in
            ap (dispatcher_of d) (sym e ∙ done)
      ]

module _ {C P : Type 0} where
  -- A frame that reaches a session's callback carries the `call_id` under which that session is
  -- registered, comes from the very edge the session was registered with, and the callback is one
  -- of that session's own.
  pub handle_edge_message-isolated :
      (identity : Text) (msg : Edge2Cloud P) (d : Dispatcher C) (callback : C) (frame : CallFrame P)
      → Reaches (handle_edge_message identity msg d) callback frame
      → Owns d identity callback frame
  unfolding handle_edge_message
  handle_edge_message-isolated identity (call_event event) d callback frame h =
      event-isolated identity d callback frame event h
  handle_edge_message-isolated identity (dial_ack ack) d callback frame h =
      ack-isolated identity d callback frame ack h
  handle_edge_message-isolated identity (hardware_alert alert) d callback frame h =
      alert-isolated identity d callback frame alert h
  handle_edge_message-isolated identity (heartbeat beat) d callback frame h =
      heartbeat-isolated identity d callback frame beat h
  handle_edge_message-isolated identity (unknown_kind kind) d callback frame h = absurd h
  handle_edge_message-isolated identity empty d callback frame h = absurd h

  -- Two dispatchers with the same process-wide callbacks treat a frame alike if they agree on the
  -- call that it is about.
  handle_edge_message-local :
      (identity : Text) (msg : Edge2Cloud P) (d d2 : Dispatcher C)
      → d.hardware_alert_cb ≡ d2.hardware_alert_cb
      → d.heartbeat_cb ≡ d2.heartbeat_cb
      → ((call_id : Text)
          → about msg ≡ some call_id
          → lookup call_id d.sessions ≡ lookup call_id d2.sessions)
      → handle_edge_message identity msg d ≡ handle_edge_message identity msg d2
  unfolding handle_edge_message dispatch_call_event dispatch_dial_ack dispatch_hardware_alert
      dispatch_heartbeat
  handle_edge_message-local identity (call_event event) d d2 a b agree =
      rw (agree event.call_id refl, dispatch_call_event) refl
  handle_edge_message-local identity (dial_ack ack) d d2 a b agree =
      rw (agree ack.call_id refl, dispatch_dial_ack) refl
  handle_edge_message-local identity (hardware_alert alert) d d2 a b agree =
      rw (a, dispatch_hardware_alert) refl
  handle_edge_message-local identity (heartbeat beat) d d2 a b agree =
      rw (b, dispatch_heartbeat) refl
  handle_edge_message-local identity (unknown_kind kind) d d2 a b agree = refl
  handle_edge_message-local identity empty d d2 a b agree = refl

  -- Ending the registration of one call changes nothing for the frames of other calls and for
  -- those that belong to no call.
  pub handle_edge_message-deregister :
      (call_id identity : Text) (msg : Edge2Cloud P) (d : Dispatcher C)
      → about msg ≢ some call_id
      → handle_edge_message identity msg (deregister call_id d) ≡ handle_edge_message identity msg d
  unfolding deregister
  handle_edge_message-deregister call_id identity msg d other =
      handle_edge_message-local identity msg (deregister call_id d) d refl refl λ other_id e.
        elim (==-cases call_id other_id) [
          | inl same ↦ absurd (other (e ∙ ap some (sym same)))
          | inr apart ↦ lookup-remove call_id other_id d.sessions ∙ rw apart refl
        ]

  -- A registration that succeeds changes nothing for the frames of other calls and for those that
  -- belong to no call.
  pub handle_edge_message-register :
      (call_id edge_device_id identity : Text) (on_call_event : C) (on_dial_ack : Option C)
      (msg : Edge2Cloud P) (d d2 : Dispatcher C)
      → register call_id edge_device_id on_call_event on_dial_ack d ≡ registered d2
      → about msg ≢ some call_id
      → handle_edge_message identity msg d2 ≡ handle_edge_message identity msg d
  handle_edge_message-register call_id edge identity on_event on_ack msg d d2 done other =
      subst (λ x. handle_edge_message identity msg x ≡ handle_edge_message identity msg d)
        (register-inserts call_id edge on_event on_ack d d2 done)
        (handle_edge_message-local identity msg _ d refl refl λ other_id e.
          elim (==-cases call_id other_id) [
            | inl same ↦ absurd (other (e ∙ ap some (sym same)))
            | inr apart ↦ lookup-insert call_id other_id _ d.sessions ∙ rw apart refl
          ])

  -- From a registration that succeeds on, a call event for that `call_id` from the edge it names is
  -- delivered to the callback that it was given, and one from any other edge is dropped.
  pub register-delivers :
      (call_id edge_device_id identity : Text) (on_call_event : C) (on_dial_ack : Option C)
      (payload : P) (d d2 : Dispatcher C)
      → register call_id edge_device_id on_call_event on_dial_ack d ≡ registered d2
      → handle_edge_message identity
          (call_event (record { call_id = call_id; payload = payload }))
          d2
        ≡ (if edge_device_id == identity
            then event_to on_call_event (record { call_id = call_id; payload = payload })
            else dropped)
  unfolding handle_edge_message
  register-delivers call_id edge identity on_event on_ack payload d d2 done =
      subst
        (λ x.
          handle_edge_message identity
            (call_event (record { call_id = call_id; payload = payload })) x
          ≡ (if edge == identity
              then event_to on_event (record { call_id = call_id; payload = payload })
              else dropped))
        (register-inserts call_id edge on_event on_ack d d2 done)
        (rw
          (
            lookup-insert_self call_id (entry_of call_id edge on_event on_ack) d.sessions,
            dispatch_call_event,
          )
          refl)
