-- ===== src/RunLoop/Hoare.antt =====
-- Triples for the coroutines of the run loop: from a call in one condition to a call in another,
-- whichever way the coroutine ends. A condition names the state, how many hangups the transcript
-- has, whether a cause is recorded, and a bound of the restructures in a row.
use isales_engine.RunLoop.{
  Call, HangupCause, Surroundings, Outcome, returned, threw, cancelled, waiting, Action, pure,
  throw, gets, modify, emit, go_to, terminate, write, manual_hangup, carry_on, ◌>>=◌,
}
use isales_engine.RunLoop.Lifecycle.{
  Lifecycle, Trail, Trail-append, hangups, hangups-with_event, with_event-IsMirrored,
  append_event-lenient, transition_to-step, transition_to-stay, with_event, is_hangup,
}
use isales_engine.CallSession.{CallState, init, end_call, CallSession, is_known, Event}
use isales_engine.CallSession.Mirror.{IsMirrored}
use isales_engine.StateMachine.{advance, states_equal_iff}
use isales_engine.Prelude.{
  if◌then◌else◌, length, nat_eq, text_eq, ◌==◌, Text, text, Dict, ℕ, ◌+◌, ◌≤◌, ◌≡◌, refl, sym, ap,
  ◌∙◌, subst, ◌≢◌, Bool, true, false, Option, some, arith,
}

abbrev pub HasCause : Bool → Option HangupCause → Type 0
HasCause false cause = Unit {0}
HasCause true cause = (known : HangupCause) × (cause ≡ some known)

-- The event that `emit` records.
abbrev pub event_at : Surroundings → Text → Dict Text Text → Call → Event
event_at env kind fields c = record {
  kind = kind;
  ts = env.clock (length c.session.full_transcript);
  fields = fields;
}

pub emit-known :
    (env : Surroundings) (kind : Text) (fields : Dict Text Text) (c : Call)
    → is_known kind ≡ true
    → emit env kind fields c
      ≡ (returned tt, record c { session = with_event (event_at env kind fields c) c.session })
unfolding emit write
emit-known env kind fields c known =
    rw (append_event-lenient env.admits (event_at env kind fields c) c.session known) refl

-- Where a coroutine surely returns.
pub bind-returns :
    {A B : Type 0} {b : B} (m : Action A) (f : A → Action B) {a : A} (c : Call)
    → (m c).0 ≡ returned a
    → (f a (m c).1).0 ≡ returned b
    → ((m >>= f) c).0 ≡ returned b
unfolding ◌>>=◌
bind-returns m f c e h = rw e h

pub emit-returns :
    (env : Surroundings) (kind : Text) (fields : Dict Text Text) (c : Call)
    → is_known kind ≡ true
    → (emit env kind fields c).0 ≡ returned tt
emit-returns env kind fields c known = ap (λ r. r.0) (emit-known env kind fields c known)

pub go_to-returns :
    (env : Surroundings) (new_state : CallState) (reason : Text) (c : Call)
    → Lifecycle c.session.state new_state
    → (go_to env new_state reason c).0 ≡ returned tt
unfolding go_to write
go_to-returns env new_state reason c step =
    rw
      (transition_to-step env.admits new_state (some reason) false
        (env.clock (length c.session.full_transcript)) c.session step)
      refl

module _ (top : ℕ) where
  pub record Held (s : CallState) (n : ℕ) (k : Bool) (b : ℕ) (session : CallSession)
      (cause : Option HangupCause) (count : ℕ) : Type 0 where
    pub mirrored : IsMirrored session
    pub trail : Trail init session.state_history session.state
    pub state : session.state ≡ s
    pub hung : hangups session ≡ n
    pub caused : HasCause k cause
    pub bounded : count ≤ b
    pub within : b ≤ top

  abbrev pub At : CallState → ℕ → Bool → ℕ → Call → Type 0
  At s n k b c = Held s n k b c.session c.hangup_cause c.consecutive_restructure_count

  -- The call goes on: no end, and no hangup recorded.
  abbrev pub Open : Bool → Call → Type 0
  Open k c = (s : CallState) × (s ≢ end_call) × At s 0 k top c

  abbrev pub Post : {A : Type 0} → (A → Call → Type 0) → Outcome A × Call → Type 0
  Post Q (returned a, c) = Q a c
  Post Q (threw, c) = Open false c
  Post Q (cancelled, c) = Open true c
  Post Q (waiting, c) = Open false c

  pub record Hoare {A : Type 0} (P : Call → Type 0) (m : Action A) (Q : A → Call → Type 0)
      : Type 0 where
    pub apply : (c : Call) → P c → Post Q (m c)

  Post-carry :
      {A B : Type 0} (Q : A → Call → Type 0) (R : B → Call → Type 0) (r : Outcome A) (c : Call)
      (f : A → Action B)
      → Post Q (r, c)
      → ((a : A) → Hoare (Q a) (f a) R)
      → Post R (carry_on r f c)
  Post-carry Q R (returned a) c f h k = (k a).apply c h
  Post-carry Q R threw c f h k = h
  Post-carry Q R cancelled c f h k = h
  Post-carry Q R waiting c f h k = h

  pub seq :
      {A B : Type 0} {P : Call → Type 0} {Q : A → Call → Type 0} {R : B → Call → Type 0}
      {m : Action A} {f : A → Action B}
      → Hoare P m Q
      → ((a : A) → Hoare (Q a) (f a) R)
      → Hoare P (m >>= f) R
  unfolding ◌>>=◌
  seq {Q} {R} {m} {f} hm hf = record {
    apply = λ c h. Post-carry Q R (m c).0 (m c).1 f (hm.apply c h) hf;
  }

  pub step_modify :
      {P : Call → Type 0} {Q : Call → Type 0} (f : Call → Call)
      → ((c : Call) → P c → Q (f c))
      → Hoare P (modify f) (λ _. Q)
  unfolding modify
  step_modify f h = record { apply = h }

  -- A write that touches none of what a condition speaks of.
  abbrev pub Neutral : (Call → Call) → Type 0
  Neutral f =
      (c : Call)
      → ((f c).session ≡ c.session)
        × ((f c).hangup_cause ≡ c.hangup_cause)
        × ((f c).consecutive_restructure_count ≡ c.consecutive_restructure_count)

  pub step_neutral :
      {s : CallState} {n : ℕ} {k : Bool} {b : ℕ} (f : Call → Call)
      → Neutral f
      → Hoare (At s n k b) (modify f) (λ _. At s n k b)
  unfolding modify
  step_neutral f same = record { apply = λ c h. rw ((same c).0, (same c).1, (same c).2) h }

  pub step_pure :
      {A : Type 0} {P : Call → Type 0} {Q : A → Call → Type 0} (a : A)
      → ((c : Call) → P c → Q a c)
      → Hoare P (pure a) Q
  unfolding pure
  step_pure a h = record { apply = h }

  pub step_gets : {A : Type 0} {P : Call → Type 0} (f : Call → A) → Hoare P (gets f) (λ _. P)
  unfolding gets
  step_gets f = record { apply = λ c h. h }

  pub step_if :
      {A : Type 0} {P : Call → Type 0} {Q : A → Call → Type 0} {m n : Action A} (b : Bool)
      → Hoare P m Q
      → Hoare P n Q
      → Hoare P (if b then m else n) Q
  step_if true hm hn = hm
  step_if false hm hn = hn

  -- A coroutine that reads the call to choose how to go on.
  pub step_read :
      {A : Type 0} {P : Call → Type 0} {Q : A → Call → Type 0} {m : Call → Action A}
      → ((c : Call) → Hoare P (m c) Q)
      → Hoare P (λ c. m c c) Q
  step_read h = record { apply = λ c p. (h c).apply c p }

  pub weaken :
      {A : Type 0} {P P' : Call → Type 0} {Q : A → Call → Type 0} {m : Action A}
      → ((c : Call) → P' c → P c)
      → Hoare P m Q
      → Hoare P' m Q
  weaken h hm = record { apply = λ c p. hm.apply c (h c p) }

  Post-loosen :
      {A : Type 0} (Q R : A → Call → Type 0) (r : Outcome A) (c : Call)
      → ((a : A) (c : Call) → Q a c → R a c)
      → Post Q (r, c)
      → Post R (r, c)
  Post-loosen Q R (returned a) c h p = h a c p
  Post-loosen Q R threw c h p = p
  Post-loosen Q R cancelled c h p = p
  Post-loosen Q R waiting c h p = p

  pub loosen :
      {A : Type 0} {P : Call → Type 0} {Q R : A → Call → Type 0} {m : Action A}
      → ((a : A) (c : Call) → Q a c → R a c)
      → Hoare P m Q
      → Hoare P m R
  loosen {Q} {R} {m} h hm = record {
    apply = λ c p. Post-loosen Q R (m c).0 (m c).1 h (hm.apply c p);
  }

  -- Less is asked: the cause may be unknown, and the bound the common one.
  pub At-relax :
      {s : CallState} {n : ℕ} {k : Bool} {b : ℕ} (c : Call) → At s n k b c → At s n false top c
  At-relax c h = record {
    mirrored = h.mirrored;
    trail = h.trail;
    state = h.state;
    hung = h.hung;
    caused = tt;
    bounded = omega (arith, h.bounded, h.within);
    within = omega arith;
  }

  pub At-caused :
      {s : CallState} {n : ℕ} {k : Bool} {b : ℕ} (c : Call) (cause : HangupCause)
      → At s n k b c
      → At s n true b (record c { hangup_cause = some cause })
  At-caused c cause h = record {
    mirrored = h.mirrored;
    trail = h.trail;
    state = h.state;
    hung = h.hung;
    caused = (cause, refl);
    bounded = h.bounded;
    within = h.within;
  }

  -- A cause that is noted where one may be known already.
  pub At-noted :
      {s : CallState} {n : ℕ} {k : Bool} {b : ℕ} (c : Call) (cause : HangupCause)
      → At s n k b c
      → At s n k b (record c { hangup_cause = some cause })
  At-noted {k = k} c cause h = record {
    mirrored = h.mirrored;
    trail = h.trail;
    state = h.state;
    hung = h.hung;
    caused = known k;
    bounded = h.bounded;
    within = h.within;
  }
    where
      known : (k : Bool) → HasCause k (some cause)
      known true = (cause, refl)
      known false = tt

  pub At-top : {s : CallState} {n : ℕ} {k : Bool} {b : ℕ} (c : Call) → At s n k b c → At s n k top c
  At-top c h = record {
    mirrored = h.mirrored;
    trail = h.trail;
    state = h.state;
    hung = h.hung;
    caused = h.caused;
    bounded = omega (arith, h.bounded, h.within);
    within = omega arith;
  }

  pub At-count :
      {s : CallState} {n : ℕ} {k : Bool} {b : ℕ} (c : Call) (m : ℕ)
      → m ≤ top
      → At s n k b c
      → At s n k top (record c { consecutive_restructure_count = m })
  At-count c m le h = record {
    mirrored = h.mirrored;
    trail = h.trail;
    state = h.state;
    hung = h.hung;
    caused = h.caused;
    bounded = le;
    within = omega arith;
  }

  module _ (s : CallState) (live : s ≢ end_call) {k : Bool} {b : ℕ} where
    pub step_throw : {A : Type 0} {Q : A → Call → Type 0} → Hoare (At s 0 k b) throw Q
    unfolding throw
    step_throw = record { apply = λ c h. (s, live, At-relax c h) }

    pub step_terminate : {A : Type 0} {Q : A → Call → Type 0} → Hoare (At s 0 k b) terminate Q
    unfolding terminate
    step_terminate = record {
      apply = λ c h. (
        s,
        live,
        At-top (record c { hangup_cause = some manual_hangup }) (At-caused c manual_hangup h),
      );
    }

  module _ (env : Surroundings) {s : CallState} {n : ℕ} {k : Bool} {b : ℕ} where
    At-event :
        (event : Event) (c : Call)
        → is_known event.kind ≡ true
        → At s n k b c
        → At s
            (n + (if is_hangup event then 1 else 0))
            k
            b
            (record c { session = with_event event c.session })
    At-event event c known h = record {
      mirrored = with_event-IsMirrored env.admits event c.session known h.mirrored;
      trail = h.trail;
      state = h.state;
      hung =
          hangups-with_event event c.session
          ∙ ap (λ m. m + (if is_hangup event then 1 else 0)) h.hung;
      caused = h.caused;
      bounded = h.bounded;
      within = h.within;
    }

    -- Recording an event never raises; a hangup counts.
    pub step_event :
        (kind : Text) (fields : Dict Text Text)
        → is_known kind ≡ true
        → Hoare
            (At s n k b)
            (emit env kind fields)
            (λ _. At s (n + (if kind == text "hangup" then 1 else 0)) k b)
    step_event kind fields known = record {
      apply = λ c h.
          rw (emit-known env kind fields c known) (At-event (event_at env kind fields c) c known h);
    }

    pub At-emit :
        (kind : Text) (fields : Dict Text Text) (c : Call)
        → is_known kind ≡ true
        → (kind == text "hangup") ≡ false
        → At s n k b c
        → At s n k b (emit env kind fields c).1
    At-emit kind fields c known other h = rw (emit-known env kind fields c known) (
        subst
          (λ m.
            At s m k b (record c { session = with_event (event_at env kind fields c) c.session }))
          (rw other (omega arith)) (At-event (event_at env kind fields c) c known h))

    -- A step of the life of the call.
    pub step_go :
        {s' : CallState} (reason : Text)
        → Lifecycle s s'
        → Hoare (At s n k b) (go_to env s' reason) (λ _. At s' n k b)
    unfolding go_to write advance
    step_go {s'} reason step = record {
      apply = λ c h.
          let here : Lifecycle c.session.state s' =
            subst (λ x. Lifecycle x s') (sym h.state) step in
          rw
            (transition_to-step env.admits s' (some reason) false
              (env.clock (length c.session.full_transcript)) c.session here)
            (record {
              mirrored = record { mirrored = h.mirrored.mirrored; known = h.mirrored.known };
              trail = Trail-append init c.session.state s' _ (some reason) h.trail here;
              state = refl;
              hung = h.hung;
              caused = h.caused;
              bounded = h.bounded;
              within = h.within;
            });
    }

    -- A transition to the state that the call is in writes nothing.
    pub step_stay : (reason : Text) → Hoare (At s n k b) (go_to env s reason) (λ _. At s n k b)
    unfolding go_to write
    step_stay reason = record {
      apply = λ c h.
          rw
            (transition_to-stay env.admits s (some reason) false
              (env.clock (length c.session.full_transcript)) c.session
              ((states_equal_iff s c.session.state).1 (sym h.state)))
            h;
    }

  module _ (env : Surroundings) {s : CallState} {n : ℕ} {k : Bool} {b : ℕ} where
    -- An event of another kind leaves the number of hangups.
    pub step_emit :
        (kind : Text) (fields : Dict Text Text)
        → is_known kind ≡ true
        → (kind == text "hangup") ≡ false
        → Hoare (At s n k b) (emit env kind fields) (λ _. At s n k b)
    step_emit kind fields known other =
        subst (λ m. Hoare (At s n k b) (emit env kind fields) (λ _. At s m k b))
          (rw other (omega arith)) (step_event env kind fields known)
