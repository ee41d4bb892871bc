-- ===== src/DialConsumer/Handling.antt =====
-- What becomes of one message.
use isales_engine.DialConsumer.{
  Inlet, DialRequest, Loaded, malformed, unloadable, no_dict, versionless, other_version, version,
  Peeked, peeked, peek_raised, Handled, spawned, dead_lettered, raised, handling_cancelled,
  Shutdown, no_shutdown, during_reserve, during_push, reserved_row, new_call, push_dead,
  dead_lettering, reserve, reserved, accepted, validated, versioned, handle_dial,
  peek_schema_version, is_supported,
}
use isales_engine.CallLifecycle.Finalize.{World, Services, Payload, dead_letter}
use isales_engine.CallLifecycle.{Fate, answered, refused, unanswered, command}
use isales_engine.TranscriptRecorder as Recorder
use isales_engine.TranscriptRecorder.{Database, CallRecord, LiveCall, transact}
use isales_engine.SessionManager.{SessionManager, register, is_registered}
use isales_engine.Prelude.{
  if◌then◌else◌, Bool-cases, nat_eq, text_eq, ◌==◌, Text, lookup-insert, lookup-insert_self,
  absent-insert, lookup, insert, ℕ, ◌≡◌, refl, sym, ap, ◌∙◌, subst, ◌≢◌, ◌⊎◌, inl, inr, Bool, true,
  false, Option, none, some, List, ◌∷◌,
}

-- Each registered call has a row.
abbrev pub IsKnown : Database → SessionManager LiveCall → Type 0
IsKnown db manager = (i : ℕ) → lookup i db.call_records ≡ none → lookup i manager.sessions ≡ none

module _ (services : Services) (inlet : Inlet) where
  abbrev pub IsHandled :
      Text → SessionManager LiveCall → List (Text × Payload) → Handled → World → Type 0
  IsHandled raw manager before (spawned call) w =
      (w.manager.sessions ≡ insert call.call_record_id call manager.sessions)
      × (lookup call.call_record_id manager.sessions ≡ none)
      × (w.redis.pushed ≡ before)
      × IsKnown w.db w.manager
  IsHandled raw manager before dead_lettered w =
      (w.manager ≡ manager)
      × (w.redis.pushed ≡ (services.dlq, dead_letter raw) ∷ before)
      × IsKnown w.db w.manager
  IsHandled raw manager before raised w =
      (w.manager ≡ manager)
      × (((n : ℕ) × (services.redis_fate n ≢ answered))
          ⊎ ((w.redis.pushed ≡ before) × (inlet.loads raw ≡ unloadable)))
      × IsKnown w.db w.manager
  IsHandled raw manager before handling_cancelled w =
      (w.manager ≡ manager)
      × ((w.redis.pushed ≡ before) ⊎ (w.redis.pushed ≡ (services.dlq, dead_letter raw) ∷ before))
      × IsKnown w.db w.manager

  push_dead-IsHandled :
      (raw : Text) (w : World)
      → IsKnown w.db w.manager
      → IsHandled raw w.manager w.redis.pushed
          (push_dead services inlet raw w).0
          (push_dead services inlet raw w).1
  unfolding push_dead command
  push_dead-IsHandled raw w known = by_fate (services.redis_fate w.redis.commands) refl
    where
      by_fate :
          (f : Fate)
          → services.redis_fate w.redis.commands ≡ f
          → IsHandled raw w.manager w.redis.pushed
              (push_dead services inlet raw w).0
              (push_dead services inlet raw w).1
      by_fate answered e = rw (e, command) (refl, refl, known)
      by_fate refused e = rw (e, command) (refl, inl (w.redis.commands, λ h. cc), known)
      by_fate unanswered e = rw (e, command) (refl, inl (w.redis.commands, λ h. cc), known)

  dead_lettering-IsHandled :
      (raw : Text) (stop : Shutdown) (w : World)
      → IsKnown w.db w.manager
      → IsHandled raw w.manager w.redis.pushed
          (dead_lettering services inlet raw stop w).0
          (dead_lettering services inlet raw stop w).1
  unfolding dead_lettering
  dead_lettering-IsHandled raw (during_push true) w known = (refl, inr refl, known)
  dead_lettering-IsHandled raw (during_push false) w known = (refl, inl refl, known)
  dead_lettering-IsHandled raw (during_reserve b) w known = push_dead-IsHandled raw w known
  dead_lettering-IsHandled raw no_shutdown w known = push_dead-IsHandled raw w known

  -- What the reservation does to the rows.
  abbrev IsReserved : Database → Bool → Database → Type 0
  IsReserved db ok db' =
      ((i : ℕ) → lookup i db'.call_records ≡ none → lookup i db.call_records ≡ none)
      × (ok ≡ true → lookup (inlet.new_id db) db'.call_records ≢ none)

  reserve-IsReserved :
      (request : DialRequest) (at : ℕ) (w : World)
      → IsReserved w.db
          (reserve services inlet request at w).0
          (reserve services inlet request at w).1.db
  unfolding reserve transact
  reserve-IsReserved request at w = by_fate (services.db_fate w.db.transactions) refl
    where
      row : CallRecord
      row = reserved_row request at

      absent :
          (i : ℕ)
          → lookup i (insert (inlet.new_id w.db) row w.db.call_records) ≡ none
          → lookup i w.db.call_records ≡ none
      absent i h = (absent-insert (inlet.new_id w.db) i row w.db.call_records h).1

      by_fate :
          (f : Recorder.Fate)
          → services.db_fate w.db.transactions ≡ f
          → IsReserved w.db
              (reserve services inlet request at w).0
              (reserve services inlet request at w).1.db
      by_fate Recorder.committed e =
          rw (e, transact)
            (
              absent,
              λ ok gone.
                  let e : some row ≡ none =
                    sym (lookup-insert_self (inlet.new_id w.db) row w.db.call_records) ∙ gone in
                  cc,
            )
      by_fate Recorder.rolled_back e = rw (e, transact) (λ i h. h, λ ok. cc)
      by_fate Recorder.unanswered e = rw (e, transact) (absent, λ ok. cc)

  module _ (fresh : (db : Database) → lookup (inlet.new_id db) db.call_records ≡ none) where
    register_new :
        (call : LiveCall) (manager : SessionManager LiveCall)
        → lookup call.call_record_id manager.sessions ≡ none
        → register (λ (c : LiveCall). c.call_record_id) call manager
          ≡ record { sessions = insert call.call_record_id call manager.sessions }
    unfolding register is_registered
    register_new call manager absent = rw (absent, is_registered) refl

    reserved-IsHandled :
        (raw : Text) (request : DialRequest) (at : ℕ) (stop : Shutdown) (w : World)
        → IsKnown w.db w.manager
        → let r =
            reserved services inlet raw
              (new_call request (inlet.new_id w.db))
              stop
              (reserve services inlet request at w) in
          IsHandled raw w.manager w.redis.pushed r.0 r.1
    unfolding reserved new_call
    reserved-IsHandled raw request at stop w known =
        let call = new_call request (inlet.new_id w.db) in
        let kept_world = (reserve services inlet request at w).1 in
        let kept = reserve-IsReserved request at w in
        let absent = known (inlet.new_id w.db) (fresh w.db) in
        let still : IsKnown kept_world.db kept_world.manager =
          unfold reserve in λ i gone. known i (kept.0 i gone) in
        elim (Bool-cases (reserve services inlet request at w).0) [
          | inl ok ↦ rw ok (
              unfold reserve in
              rw (register_new call w.manager absent) (
                refl,
                absent,
                refl,
                λ i gone. elim (Bool-cases (inlet.new_id w.db == i)) [
                  | inl same ↦ absurd (
                      kept.1 ok (
                        subst (λ x. lookup x kept_world.db.call_records ≡ none)
                          (sym ((nat_eq.beq_iff (inlet.new_id w.db) i).0 same)) gone))
                  | inr other ↦
                      lookup-insert (inlet.new_id w.db) i call w.manager.sessions
                      ∙ ap (λ b. if b then some call else lookup i w.manager.sessions) other
                      ∙ known i (kept.0 i gone)
                ],
              ))
          | inr lost ↦
              rw lost (unfold reserve in dead_lettering-IsHandled raw stop kept_world still)
        ]

    accepted-IsHandled :
        (raw : Text) (request : DialRequest) (at : ℕ) (stop : Shutdown) (w : World)
        → IsKnown w.db w.manager
        → IsHandled raw w.manager w.redis.pushed
            (accepted services inlet raw request at stop w).0
            (accepted services inlet raw request at stop w).1
    unfolding accepted
    accepted-IsHandled raw request at no_shutdown w known =
        reserved-IsHandled raw request at no_shutdown w known
    accepted-IsHandled raw request at (during_push b) w known =
        reserved-IsHandled raw request at (during_push b) w known
    accepted-IsHandled raw request at (during_reserve false) w known = (refl, inl refl, known)
    accepted-IsHandled raw request at (during_reserve true) w known = (
      refl,
      inl refl,
      λ i gone.
          known i
            (absent-insert (inlet.new_id w.db) i (reserved_row request at) w.db.call_records
              gone).1,
    )

    validated-IsHandled :
        (raw : Text) (request : Option DialRequest) (at : ℕ) (stop : Shutdown) (w : World)
        → IsKnown w.db w.manager
        → IsHandled raw w.manager w.redis.pushed
            (validated services inlet raw request at stop w).0
            (validated services inlet raw request at stop w).1
    unfolding validated
    validated-IsHandled raw none at stop w known = dead_lettering-IsHandled raw stop w known
    validated-IsHandled raw (some request) at stop w known =
        accepted-IsHandled raw request at stop w known

    unloadable_of_peek : (l : Loaded) → peek_schema_version l ≡ peek_raised → l ≡ unloadable
    unfolding peek_schema_version
    unloadable_of_peek malformed h = cc
    unloadable_of_peek unloadable h = refl
    unloadable_of_peek no_dict h = cc
    unloadable_of_peek versionless h = cc
    unloadable_of_peek other_version h = cc
    unloadable_of_peek (version v) h = cc

    versioned-IsHandled :
        (raw : Text) (p : Peeked) (at : ℕ) (stop : Shutdown) (w : World)
        → peek_schema_version (inlet.loads raw) ≡ p
        → IsKnown w.db w.manager
        → IsHandled raw w.manager w.redis.pushed
            (versioned services inlet p raw at stop w).0
            (versioned services inlet p raw at stop w).1
    unfolding versioned
    versioned-IsHandled raw peek_raised at stop w found known =
        (refl, inr (refl, unloadable_of_peek (inlet.loads raw) found), known)
    versioned-IsHandled raw (peeked sv) at stop w found known =
        elim (Bool-cases (is_supported sv)) [
          | inl right ↦ rw right (validated-IsHandled raw (inlet.validate raw) at stop w known)
          | inr wrong ↦ rw wrong (dead_lettering-IsHandled raw stop w known)
        ]

    pub handle_dial-IsHandled :
        (raw : Text) (at : ℕ) (stop : Shutdown) (w : World)
        → IsKnown w.db w.manager
        → IsHandled raw w.manager w.redis.pushed
            (handle_dial services inlet raw at stop w).0
            (handle_dial services inlet raw at stop w).1
    unfolding handle_dial
    handle_dial-IsHandled raw at stop w known =
        versioned-IsHandled raw (peek_schema_version (inlet.loads raw)) at stop w refl known
