-- ===== src/DialConsumer/Intake.antt =====
-- What becomes of dial requests.
use isales_engine.DialConsumer.Handling.{IsKnown, IsHandled, handle_dial-IsHandled}
use isales_engine.DialConsumer.{
  Inlet, Loaded, malformed, unloadable, no_dict, versionless, other_version, version, Handled,
  spawned, dead_lettered, raised, handling_cancelled, Shutdown, handle_dial, handled, Popped,
  timed_out, popping_raised, popping_cancelled, popped, LoopEnd, dial_loop, RunnerEnd, given_cause,
  runner_with_finalize,
}
use isales_engine.CallLifecycle.Finalize.{finalize_session, World, Services}
use isales_engine.CallLifecycle.Finalize.Settled.{finalize_session-IsSettled}
use isales_engine.CallLifecycle.{answered}
use isales_engine.TranscriptRecorder.{Database, LiveCall}
use isales_engine.SessionManager.{SessionManager}
use isales_engine.Prelude.{
  length, nat_eq, text_eq, Text, remove-insert_absent, length-insert_absent, lookup, insert, remove,
  ℕ, suc, ◌+◌, ◌≤◌, ◌≡◌, ap, ◌∙◌, subst, inl, inr, Bool, none, List, [], ◌∷◌, arith,
}

module _ (services : Services) (inlet : Inlet) where
  module _ (fresh : (db : Database) → lookup (inlet.new_id db) db.call_records ≡ none) where
    -- How many requests the registry and the queues hold.
    abbrev pub accounted : World → ℕ
    accounted w = length w.redis.pushed + length w.manager.sessions

    -- The messages that a loop takes: none after a cancellation.
    abbrev pub taken_after : Handled → ℕ → ℕ
    taken_after (spawned call) n = suc n
    taken_after dead_lettered n = suc n
    taken_after raised n = suc n
    taken_after handling_cancelled n = 1

    abbrev pub count_popped : List Popped → World → ℕ
    count_popped [] w = 0
    count_popped (timed_out ∷ rest) w = count_popped rest w
    count_popped (popping_raised ∷ rest) w = count_popped rest w
    count_popped (popping_cancelled ∷ rest) w = 0
    count_popped (popped raw at stop ∷ rest) w =
        let (h, w') = handle_dial services inlet raw at stop w in
        taken_after h (count_popped rest w')

    -- Those of them that may be lost: one that `json.loads` refuses by neither a ValueError nor a
    -- TypeError, and one whose handling a shutdown cancels.
    abbrev pub unloadables : Loaded → ℕ
    unloadables unloadable = 1
    unloadables malformed = 0
    unloadables no_dict = 0
    unloadables versionless = 0
    unloadables other_version = 0
    unloadables (version v) = 0

    abbrev pub exposed_after : Text → Handled → ℕ → ℕ
    exposed_after raw (spawned call) n = n
    exposed_after raw dead_lettered n = n
    exposed_after raw raised n = unloadables (inlet.loads raw) + n
    exposed_after raw handling_cancelled n = 1

    abbrev pub count_exposed : List Popped → World → ℕ
    count_exposed [] w = 0
    count_exposed (timed_out ∷ rest) w = count_exposed rest w
    count_exposed (popping_raised ∷ rest) w = count_exposed rest w
    count_exposed (popping_cancelled ∷ rest) w = 0
    count_exposed (popped raw at stop ∷ rest) w =
        let (h, w') = handle_dial services inlet raw at stop w in
        exposed_after raw h (count_exposed rest w')

    -- From a world to another, with what was taken and what of it may be lost.
    abbrev pub IsAccounted : World → World → ℕ → ℕ → Type 0
    IsAccounted w w' taken exposed =
        (accounted w' ≤ accounted w + taken)
        × (accounted w + taken ≤ accounted w' + exposed)
        × IsKnown w'.db w'.manager

    same_length : (m m' : SessionManager LiveCall) → m' ≡ m → length m'.sessions ≡ length m.sessions
    same_length m m' same = ap (λ (x : SessionManager LiveCall). length x.sessions) same

    handled_one :
        (raw : Text) (w : World) (h : Handled) (w' : World) (rest : World → LoopEnd × World)
        (taken exposed : ℕ)
        → ((n : ℕ) → services.redis_fate n ≡ answered)
        → IsHandled services inlet raw w.manager w.redis.pushed h w'
        → (IsKnown w'.db w'.manager → IsAccounted w' (rest w').1 taken exposed)
        → IsAccounted w
            (handled services inlet h rest w').1
            (taken_after h taken)
            (exposed_after raw h exposed)
    unfolding handled
    handled_one raw w (spawned call) w' rest taken exposed up (inserted, absent, pushed, known)
          more =
        let (low, high, still) = more known in
        let one : accounted w' ≡ accounted w + 1 = omega (
          arith,
          ap (λ xs. length xs) pushed,
          ap (λ xs. length xs) inserted,
          length-insert_absent call.call_record_id call w.manager.sessions absent,
        ) in
        (omega (arith, one, low), omega (arith, one, high), still)
    handled_one raw w dead_lettered w' rest taken exposed up (same, pushed, known) more =
        let (low, high, still) = more known in
        let one : accounted w' ≡ accounted w + 1 =
          omega (arith, ap (λ xs. length xs) pushed, same_length w.manager w'.manager same) in
        (omega (arith, one, low), omega (arith, one, high), still)
    handled_one raw w raised w' rest taken exposed up (same, inl (n, down), known) more =
        absurd (down (up n))
    handled_one raw w raised w' rest taken exposed up (same, inr (pushed, bad), known) more =
        let (low, high, still) = more known in
        let none_new : accounted w' ≡ accounted w =
          omega (arith, ap (λ xs. length xs) pushed, same_length w.manager w'.manager same) in
        (omega (arith, none_new, low), omega (arith, none_new, high, ap unloadables bad), still)
    handled_one raw w handling_cancelled w' rest taken exposed up (same, inl pushed, known) more = (
      omega (arith, ap (λ xs. length xs) pushed, same_length w.manager w'.manager same),
      omega (arith, ap (λ xs. length xs) pushed, same_length w.manager w'.manager same),
      known,
    )
    handled_one raw w handling_cancelled w' rest taken exposed up (same, inr pushed, known) more = (
      omega (arith, ap (λ xs. length xs) pushed, same_length w.manager w'.manager same),
      omega (arith, ap (λ xs. length xs) pushed, same_length w.manager w'.manager same),
      known,
    )

    -- While Redis answers, however the transactions fare, whatever the messages hold and wherever a
    -- shutdown comes, no message that is popped is taken twice: the registered calls and dead letters
    -- grow by at most the messages taken. None is lost but those that `json.loads` refuses by neither
    -- a ValueError nor a TypeError, and the one whose handling a shutdown cancels: by all others they
    -- do grow. Each registered call has a row.
    pub dial_loop-accounts :
        (polls : List Popped) (w : World)
        → ((n : ℕ) → services.redis_fate n ≡ answered)
        → IsKnown w.db w.manager
        → IsAccounted w
            (dial_loop services inlet polls w).1
            (count_popped polls w)
            (count_exposed polls w)
    unfolding dial_loop
    dial_loop-accounts [] w up known = (omega arith, omega arith, known)
    dial_loop-accounts (timed_out ∷ rest) w up known = dial_loop-accounts rest w up known
    dial_loop-accounts (popping_raised ∷ rest) w up known = dial_loop-accounts rest w up known
    dial_loop-accounts (popping_cancelled ∷ rest) w up known = (omega arith, omega arith, known)
    dial_loop-accounts (popped raw at stop ∷ rest) w up known =
        let next = handle_dial services inlet raw at stop w in
        handled_one raw w next.0 next.1 (dial_loop services inlet rest) _ _ up
          (handle_dial-IsHandled services inlet fresh raw at stop w known)
          (dial_loop-accounts rest next.1 up)

    restores :
        (raw : Text) (w w1 w2 : World) (h : Handled) (call : LiveCall)
        → h ≡ spawned call
        → IsHandled services inlet raw w.manager w.redis.pushed h w1
        → w2.manager.sessions ≡ remove call.call_record_id w1.manager.sessions
        → w2.manager.sessions ≡ w.manager.sessions
    restores raw w w1 w2 (spawned c) call same (inserted, absent, pushed, known) left =
        let e : c ≡ call = cc in
        left
        ∙ ap (λ d. remove call.call_record_id d) inserted
        ∙ subst
            (λ (x : LiveCall).
              remove x.call_record_id (insert c.call_record_id c w.manager.sessions)
              ≡ w.manager.sessions)
            e (remove-insert_absent c.call_record_id c w.manager.sessions absent)
    restores raw w w1 w2 dead_lettered call same h left = cc
    restores raw w w1 w2 raised call same h left = cc
    restores raw w w1 w2 handling_cancelled call same h left = cc

    -- A call that a request has spawned, and that nothing but its own run follows, leaves the
    -- registry as it was before the request once it is finalized, in whichever way its runner ends,
    -- also where a cancellation comes during the finalization, and however Redis and the database
    -- fare.
    pub runner_with_finalize-restores :
        (raw : Text) (at started_at ended_at : ℕ) (stop : Shutdown) (w : World) (end : RunnerEnd)
        (interrupted : Bool) (call call' : LiveCall)
        → IsKnown w.db w.manager
        → (handle_dial services inlet raw at stop w).0 ≡ spawned call
        → call'.call_record_id ≡ call.call_record_id
        → (runner_with_finalize services end interrupted call' started_at ended_at
            (handle_dial services inlet raw at stop w).1).1.manager.sessions
          ≡ w.manager.sessions
    unfolding runner_with_finalize
    runner_with_finalize-restores raw at started_at ended_at stop w end interrupted call call' known
          made same =
        let w1 = (handle_dial services inlet raw at stop w).1 in
        let ended : LiveCall = record call' { hangup_cause = given_cause end call'.hangup_cause } in
        restores raw w w1 (finalize_session services ended started_at ended_at w1)
          (handle_dial services inlet raw at stop w).0 call made
          (handle_dial-IsHandled services inlet fresh raw at stop w known)
          (subst
            (λ k.
              (finalize_session services ended started_at ended_at w1).manager.sessions
              ≡ remove k w1.manager.sessions)
            same (finalize_session-IsSettled services ended started_at ended_at w1).sessions)
