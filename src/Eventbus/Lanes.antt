-- ===== src/Eventbus/Lanes.antt =====
-- What the lanes keep and what they drop.
use isales_engine.Prelude.{
  if◌then◌else◌, length, any, keep, All, length-append, keep-append, newest, newest_of_le,
  newest-newest, length-newest, newest-append_full, ◌==◌, nat_eq, text_eq, Text, ends_with,
  lookup-insert, ℕ, ◌+◌, ◌-◌, ◌≤◌, ◌<◌, min, ◌≡◌, refl, sym, ap, ◌∙◌, fun_ext, Bool, true, false,
  List, [], ◌∷◌, ◌++◌, append-nil, append_assoc, arith,
}
use isales_engine.Eventbus.{
  Bus, Lane, lossless, lossy, post, post_lossy, lossy_full, lane_for, default_lane,
  lossless_default_suffixes, drop_oldest, put_or_count, register_lane,
}

-- An event type whose lane was not registered is lossless, whatever its name ends in; one that was
-- registered has the registered lane.
pub lane_for-register :
    {E H : Type 0} (bus : Bus E H) (event_type other : Text) (lane : Lane)
    → lane_for (register_lane event_type lane bus) other
      ≡ (if event_type == other then lane else lane_for bus other)
unfolding lane_for register_lane
lane_for-register bus event_type other lane =
    ground (arith, lookup-insert event_type other lane bus.lanes)

pub default_lane_lem : (name : Text) → default_lane name ≡ lossless
unfolding default_lane
default_lane_lem name = same (any (λ suffix. ends_with suffix name) lossless_default_suffixes)
  where
    same : (b : Bool) → (if b then lossless else lossless) ≡ lossless
    same true = refl
    same false = refl

abbrev is_lossless : Lane → Bool
is_lossless lossless = true
is_lossless lossy = false

-- The events of the list that go to the lossless lane.
abbrev pub of_lossless : {E : Type 0} → (E → Lane) → List E → List E
of_lossless lane events = keep (λ event. is_lossless (lane event)) events

module _ {E H : Type 0} (type_of : E → Text) where
  -- Posting a run of events.
  abbrev pub post_all : List E → Bus E H → Bus E H
  post_all [] bus = bus
  post_all (event ∷ events) bus = post_all events (post type_of event bus)

  pub keeps-post :
      (event : E) (bus : Bus E H)
      → ((post type_of event bus).lanes ≡ bus.lanes)
        × ((post type_of event bus).closed ≡ bus.closed)
        × ((post type_of event bus).lossy_maxsize ≡ bus.lossy_maxsize)
        × ((post type_of event bus).handlers ≡ bus.handlers)
        × ((post type_of event bus).running ≡ bus.running)
  unfolding post post_lossy drop_oldest put_or_count
  keeps-post event bus = ground arith

  abbrev pub lane_of : Bus E H → E → Lane
  lane_of bus event = lane_for bus (type_of event)

  lossless_queue-post :
      (event : E) (bus : Bus E H)
      → bus.closed ≡ false
      → (post type_of event bus).lossless_queue
        ≡ bus.lossless_queue ++ of_lossless (lane_of bus) (event ∷ [])
  unfolding post post_lossy drop_oldest put_or_count
  lossless_queue-post event bus h = ground (arith, append-nil bus.lossless_queue)

  lane_for-post : (event : E) (bus : Bus E H) → lane_for (post type_of event bus) ≡ lane_for bus
  unfolding lane_for
  lane_for-post event bus = fun_ext λ x. rw (keeps-post event bus).0 refl

  lane_of-post : (event : E) (bus : Bus E H) → lane_of (post type_of event bus) ≡ lane_of bus
  lane_of-post event bus =
      ap {B = E → Lane} (λ (f : Text → Lane) x. f (type_of x)) (lane_for-post event bus)

  -- While the bus is open, each event of the lossless lane is queued, in the order of posting,
  -- behind what the queue held, whatever is posted to the lossy lane in between.
  pub lossless_queue-post_all :
      (events : List E) (bus : Bus E H)
      → bus.closed ≡ false
      → (post_all events bus).lossless_queue
        ≡ bus.lossless_queue ++ of_lossless (lane_of bus) events
  lossless_queue-post_all [] bus h = sym (append-nil bus.lossless_queue)
  lossless_queue-post_all (event ∷ events) bus h =
      lossless_queue-post_all events (post type_of event bus) ((keeps-post event bus).1 ∙ h)
      ∙ ap (λ l. (post type_of event bus).lossless_queue ++ of_lossless l events)
          (lane_of-post event bus)
      ∙ ap (λ q. q ++ of_lossless (lane_of bus) events) (lossless_queue-post event bus h)
      ∙ append_assoc bus.lossless_queue (of_lossless (lane_of bus) (event ∷ []))
          (of_lossless (lane_of bus) events)
      ∙ ap (λ q. bus.lossless_queue ++ q)
          (sym (keep-append (λ x. is_lossless (lane_of bus x)) (event ∷ []) events))

  post_of_closed : (event : E) (bus : Bus E H) → bus.closed ≡ true → post type_of event bus ≡ bus
  unfolding post
  post_of_closed event bus h = ground arith

  -- Posts on a closed bus do nothing.
  pub post-closed :
      (events : List E) (bus : Bus E H) → bus.closed ≡ true → post_all events bus ≡ bus
  post-closed [] bus h = refl
  post-closed (event ∷ events) bus h =
      ap (post_all events) (post_of_closed event bus h) ∙ post-closed events bus h

  module _ (n : ℕ) (lane : Text → Lane) (bounded : 0 < n) where
    lossy_cases :
        (event : E) (bus : Bus E H) (q : List E)
        → bus.closed ≡ false
        → bus.lossy_maxsize ≡ n
        → lane_for bus (type_of event) ≡ lossy
        → length q ≤ n
        → bus.lossy_queue ≡ q
        → ((post type_of event bus).lossy_queue ≡ newest n (q ++ event ∷ []))
          × ((post type_of event bus).dropped ≡ bus.dropped + (length q + 1 - n))
    unfolding post post_lossy drop_oldest put_or_count lossy_full
    lossy_cases event bus [] unclosed size lane fits p = ground (arith, newest_of_le n (event ∷ []))
    lossy_cases event bus (x ∷ rest) unclosed size lane fits p = ground (
      arith,
      newest_of_le n (x ∷ rest ++ event ∷ []),
      newest-append_full x event rest n,
      length-append rest (event ∷ []),
    )

    lossy_run :
        (events : List E) (bus : Bus E H)
        → bus.closed ≡ false
        → bus.lossy_maxsize ≡ n
        → lane_for bus ≡ lane
        → length bus.lossy_queue ≤ n
        → All (λ event. lane (type_of event) ≡ lossy) events
        → ((post_all events bus).lossy_queue ≡ newest n (bus.lossy_queue ++ events))
          × ((post_all events bus).dropped ≡ bus.dropped + (length (bus.lossy_queue ++ events) - n))
    lossy_run [] bus unclosed size same fits lanes =
        let e : bus.lossy_queue ++ [] ≡ bus.lossy_queue = append-nil bus.lossy_queue in
        (sym (ap (newest n) e ∙ newest_of_le n bus.lossy_queue fits), omega (arith, ap length e))
    lossy_run (event ∷ events) bus unclosed size same fits lanes =
        let (queue, count) =
          lossy_cases event bus bus.lossy_queue unclosed size
            (ap (λ (f : Text → Lane). f (type_of event)) same ∙ lanes.0) fits refl in
        let kept = keeps-post event bus in
        let ql : length (post type_of event bus).lossy_queue ≡ min n (length bus.lossy_queue + 1) =
          ap length queue
          ∙ omega (
            arith,
            length-newest n (bus.lossy_queue ++ event ∷ []),
            length-append bus.lossy_queue (event ∷ []),
          ) in
        let (final, total) =
          lossy_run events (post type_of event bus) (kept.1 ∙ unclosed) (kept.2 ∙ size)
            (lane_for-post event bus ∙ same) (omega (arith, ql)) lanes.1 in
        (
          final
              ∙ ap (λ l. newest n (l ++ events)) queue
              ∙ newest-newest n (bus.lossy_queue ++ event ∷ []) events
              ∙ ap (newest n) (append_assoc bus.lossy_queue (event ∷ []) events),
          omega (
            arith,
            total,
            count,
            ql,
            length-append (post type_of event bus).lossy_queue events,
            length-append bus.lossy_queue (event ∷ events),
          ),
        )

  -- On a bounded, open lossy lane the queue holds the newest events, at most `lossy_maxsize` of
  -- them, in the order of posting, and `dropped` counts those that had to go.
  pub lossy_queue-post_all :
      (events : List E) (bus : Bus E H)
      → bus.closed ≡ false
      → 0 < bus.lossy_maxsize
      → length bus.lossy_queue ≤ bus.lossy_maxsize
      → All (λ event. lane_of bus event ≡ lossy) events
      → ((post_all events bus).lossy_queue ≡ newest bus.lossy_maxsize (bus.lossy_queue ++ events))
        × ((post_all events bus).dropped
            ≡ bus.dropped + (length (bus.lossy_queue ++ events) - bus.lossy_maxsize))
  lossy_queue-post_all events bus unclosed bounded fits lanes =
      lossy_run bus.lossy_maxsize (lane_for bus) bounded events bus unclosed refl refl fits lanes
