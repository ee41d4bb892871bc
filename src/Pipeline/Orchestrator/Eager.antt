-- ===== src/Pipeline/Orchestrator/Eager.antt =====
-- isales_engine/pipeline/orchestrator.py: the replay buffer. `start_eager` lets generation run ahead
-- of the gate on a task of its own, and `_replay` hands its sentences to playback. The two tasks
-- meet at the lock of the buffer, so that a run is a list of their steps, in any order.
pub mod Replay
pub mod Progress
use isales_engine.Prelude.{
  if◌then◌else◌, get_elem?, drop, concat, nat_eq, text_eq, Text, ℕ, ◌+◌, Bool, true, false, Option,
  none, some, List, [], ◌∷◌, ◌++◌,
}

-- What generation has still to give, the buffer, and what the replay has handed over.
pub record Eager : Type 0 where
  pub coming : List Text
  pub buffer : List Text
  pub eager_done : Bool
  pub replayed_count : ℕ
  pub handed : List Text
  pub returned : Bool

unfoldable pub start_eager : List Text → Eager
start_eager core = record {
  coming = core;
  buffer = [];
  eager_done = false;
  replayed_count = 0;
  handed = [];
  returned = false;
}

-- A step of `_drain_eager`: the next sentence, or the `finally`. A done task does nothing.
unfoldable pub drain_step : List Text → Eager → Eager
drain_step [] e = record e { eager_done = true }
drain_step (s ∷ rest) e =
    if e.eager_done then e else record e { coming = rest; buffer = e.buffer ++ s ∷ [] }

-- A turn of the loop of `_replay`: it waits, returns, or hands a sentence over. Once it has
-- returned it does nothing.
-- It is given the item of the buffer at the count.
unfoldable pub replay_step : Option Text → Eager → Eager
replay_step none e = if e.eager_done then record e { returned = true } else e
replay_step (some s) e =
    if e.returned
    then e
    else record e { replayed_count = e.replayed_count + 1; handed = e.handed ++ s ∷ [] }

-- `cancel_eager` of a task that is not done: the generation ends where it is.
unfoldable pub cancel_eager : Eager → Eager
cancel_eager e = record e { eager_done = true }

unfoldable pub buffer_remainder : Eager → Text
buffer_remainder e = concat (drop e.replayed_count e.buffer)

pub data Act : Type 0 where
  drains replays cancels : Act

unfoldable pub act : Act → Eager → Eager
unfolding drain_step replay_step cancel_eager
act drains e = drain_step e.coming e
act replays e = replay_step (get_elem? e.buffer e.replayed_count) e
act cancels e = cancel_eager e

unfoldable pub run : List Act → Eager → Eager
run [] e = e
run (a ∷ rest) e = run rest (act a e)
