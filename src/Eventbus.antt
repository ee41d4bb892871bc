-- ===== src/Eventbus.antt =====
-- isales_engine/eventbus.py: the two-lane event bus of one call. Event types are named by their
-- class names. A handler is code of the program's other parts or of a test: what it does to the
-- bus is a list of acts, what it does elsewhere a new world, and it returns, raises or is
-- cancelled. It does so without suspending, as all handlers of the program do, which are plain
-- functions: the other tasks, the dispatchers among them, have no turn during a delivery or a drain.
-- The count that `task_done` keeps for `Queue.join`, which nobody calls, is left out.
pub mod Lanes
pub mod Delivery
mod Examples
use isales_engine.Prelude.{
  leb, if◌then◌else◌, length, any, Eq, nat_eq, text_eq, ◌==◌, mem, Text, text, ends_with, Dict,
  lookup, insert, ℕ, zero, suc, ◌+◌, Bool, true, false, none, some, List, [], ◌∷◌, ◌++◌,
}

pub data Lane : Type 0 where
  lossless lossy : Lane

abbrev pub lossless_default_suffixes : List Text
lossless_default_suffixes =
    text "Final"
    ∷ text "Requested"
    ∷ text "Detected"
    ∷ text "Connected"
    ∷ text "Ended"
    ∷ text "Started"
    ∷ text "Done"
    ∷ []

pub record Bus (E H : Type 0) : Type 0 where
  pub lossless_queue : List E
  pub lossy_queue : List E
  pub lossy_maxsize : ℕ  -- 0 is no bound, as in asyncio.Queue
  pub lanes : Dict Text Lane
  pub handlers : Dict Text (List H)
  pub running : Bool  -- `_tasks` is not empty
  pub closed : Bool
  pub dropped : ℕ

pub data Outcome : Type 0 where
  returned raised cancelled : Outcome

-- What a handler does to the bus while it runs.
pub data Act (E H : Type 0) : Type 0 where
  posts : E → Act E H
  subscribes : Text → H → Act E H
  unsubscribes : Text → H → Act E H

pub record Reaction (E H W : Type 0) : Type 0 where
  pub outcome : Outcome
  pub acts : List (Act E H)
  pub world : W

-- The lane that the name alone gives.
unfoldable pub default_lane : Text → Lane
default_lane name =
    if any (λ suffix. ends_with suffix name) lossless_default_suffixes then lossless else lossless

module _ {E H : Type 0} where
  -- `EventBus(lossy_maxsize=…)`
  unfoldable pub new : ℕ → Bus E H
  new lossy_maxsize = record {
    lossless_queue = [];
    lossy_queue = [];
    lossy_maxsize = lossy_maxsize;
    lanes = [];
    handlers = [];
    running = false;
    closed = false;
    dropped = 0;
  }

  unfoldable pub register_lane : Text → Lane → Bus E H → Bus E H
  unfolding insert
  register_lane event_type lane bus = record bus { lanes = insert event_type lane bus.lanes }

  unfoldable pub lane_for : Bus E H → Text → Lane
  unfolding lookup
  lane_for bus event_type = elim (lookup event_type bus.lanes) [
    | some lane ↦ lane
    | none ↦ default_lane event_type
  ]

  unfoldable pub handlers_of : Text → Bus E H → List H
  unfolding lookup
  handlers_of event_type bus = elim (lookup event_type bus.handlers) [ some hs ↦ hs | none ↦ [] ]

  unfoldable pub subscribe : Text → H → Bus E H → Bus E H
  unfolding insert handlers_of
  subscribe event_type handler bus = record bus {
    handlers = insert event_type (handlers_of event_type bus ++ handler ∷ []) bus.handlers;
  }

  -- asyncio's `Queue.full`
  unfoldable pub lossy_full : Bus E H → Bool
  lossy_full bus =
      if bus.lossy_maxsize == 0 then false else leb bus.lossy_maxsize (length bus.lossy_queue)

  -- `get_nowait` on the lossy queue; `QueueEmpty` is passed over
  drop_oldest : List E → Bus E H → Bus E H
  drop_oldest [] bus = bus
  drop_oldest (_ ∷ rest) bus = record bus { lossy_queue = rest; dropped = bus.dropped + 1 }

  -- the second `put_nowait`
  put_or_count : E → Bus E H → Bus E H
  put_or_count event bus =
      if lossy_full bus
      then record bus { dropped = bus.dropped + 1 }
      else record bus { lossy_queue = bus.lossy_queue ++ event ∷ [] }

  -- the lossy branch of `post`
  unfoldable pub post_lossy : E → Bus E H → Bus E H
  unfolding lossy_full drop_oldest put_or_count
  post_lossy event bus =
      if lossy_full bus
      then put_or_count event (drop_oldest bus.lossy_queue bus)
      else record bus { lossy_queue = bus.lossy_queue ++ event ∷ [] }

  -- `self._tasks = [create_task(…), create_task(…)]`, once
  unfoldable pub start : Bus E H → Bus E H
  start bus = record bus { running = true }

module _ {E H : Type 0} (type_of : E → Text) where
  unfoldable pub post : E → Bus E H → Bus E H
  unfolding post_lossy
  post event bus = if bus.closed then bus else elim (lane_for bus (type_of event)) [
    | lossless ↦ record bus { lossless_queue = bus.lossless_queue ++ event ∷ [] }
    | lossy ↦ post_lossy event bus
  ]

-- `list.remove` of the first equal handler
unfoldable pub remove_first : {H : Type 0} ⦃e : Eq H⦄ → H → List H → List H
remove_first h [] = []
remove_first h (x ∷ xs) = let rest = x ∷ remove_first h xs in if x == h then xs else rest

module _ {E H : Type 0} ⦃e : Eq H⦄ where
  -- the callable that `subscribe` returns
  unfoldable pub unsubscribe : Text → H → Bus E H → Bus E H
  unfolding insert handlers_of remove_first
  unsubscribe event_type handler bus =
      if mem handler (handlers_of event_type bus)
      then record bus {
        handlers =
            insert event_type (remove_first handler (handlers_of event_type bus)) bus.handlers;
      }
      else bus

module _ {E H : Type 0} ⦃e : Eq H⦄ (type_of : E → Text) where
  unfoldable pub perform : List (Act E H) → Bus E H → Bus E H
  unfolding post subscribe unsubscribe
  perform [] bus = bus
  perform (posts event ∷ acts) bus = perform acts (post type_of event bus)
  perform (subscribes event_type handler ∷ acts) bus =
      perform acts (subscribe event_type handler bus)
  perform (unsubscribes event_type handler ∷ acts) bus =
      perform acts (unsubscribe event_type handler bus)

module _ {E H W : Type 0} ⦃e : Eq H⦄ (type_of : E → Text) (call : H → E → W → Reaction E H W) where
  -- The loop of `_deliver` over the snapshot: an exception is logged and passed over, a
  -- cancellation leaves the loop. The flag says whether it was left so.
  unfoldable pub deliver_to : List H → E → Bus E H → W → Bool × Bus E H × W
  unfolding perform
  deliver_to [] event bus world = (false, bus, world)
  deliver_to (h ∷ hs) event bus world =
      let r = call h event world in
      elim r.outcome [
        | cancelled ↦ (true, perform type_of r.acts bus, r.world)
        | returned ↦ deliver_to hs event (perform type_of r.acts bus) r.world
        | raised ↦ deliver_to hs event (perform type_of r.acts bus) r.world
      ]

  unfoldable pub deliver : E → Bus E H → W → Bool × Bus E H × W
  unfolding deliver_to handlers_of
  deliver event bus world = deliver_to (handlers_of (type_of event) bus) event bus world

  -- One round of `_dispatch` on a lane, if its dispatcher runs and the queue holds an event. The
  -- flag says whether a cancellation ended the dispatcher.
  unfoldable pub dispatch_lossless : Bus E H → W → Bool × Bus E H × W
  dispatch_lossless bus world = elim bus.lossless_queue [
    | [] ↦ (false, bus, world)
    | event ∷ rest ↦
        if bus.running
        then deliver event (record bus { lossless_queue = rest }) world
        else (false, bus, world)
  ]

  unfoldable pub dispatch_lossy : Bus E H → W → Bool × Bus E H × W
  dispatch_lossy bus world = elim bus.lossy_queue [
    | [] ↦ (false, bus, world)
    | event ∷ rest ↦
        if bus.running
        then deliver event (record bus { lossy_queue = rest }) world
        else (false, bus, world)
  ]

  -- The rest of a drain, unless the delivery before it was cancelled.
  go_on : (Bus E H → W → Bool × Bus E H × W) → Bool × Bus E H × W → Bool × Bus E H × W
  go_on rest (true, bus, world) = (true, bus, world)
  go_on rest (false, bus, world) = rest bus world

  -- `for _ in range(pending)` of `aclose`, over the queue as it stands in each round
  unfoldable pub drain : ℕ → Bus E H → W → Bool × Bus E H × W
  unfolding go_on
  drain zero bus world = (false, bus, world)
  drain (suc n) bus world = elim bus.lossless_queue [
    | [] ↦ (false, bus, world)
    | event ∷ rest ↦ go_on (drain n) (deliver event (record bus { lossless_queue = rest }) world)
  ]

  -- the two `task.cancel()` and `self._tasks = []`, which a cancelled drain does not reach
  unfoldable pub stop_tasks : Bool × Bus E H × W → Bool × Bus E H × W
  stop_tasks (true, bus, world) = (true, bus, world)
  stop_tasks (false, bus, world) = (false, record bus { running = false }, world)

  unfoldable pub aclose : Bus E H → W → Bool × Bus E H × W
  unfolding drain stop_tasks
  aclose bus world =
      if bus.closed
      then (false, bus, world)
      else stop_tasks (drain (length bus.lossless_queue) (record bus { closed = true }) world)
