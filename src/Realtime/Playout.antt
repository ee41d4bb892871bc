-- ===== src/Realtime/Playout.antt =====
-- isales_engine/realtime/rtc_telephony.py: playback of one spoken sentence. `feed_playout` cuts the
-- stream of speech into frames of 10 ms for a bounded queue, and `_outbound_loop` pushes one frame
-- each 10 ms. The two tasks meet at the queue, so that a run is a list of their turns, in any order.
-- The background bed that is mixed under a frame is left out, so is a barge-in.
pub mod Frames
pub mod Stream
pub mod Turns
pub mod Delivery
pub mod Progress
pub mod Stuck
mod Examples
use isales_engine.Prelude.{
  ltb, leb, if◌then◌else◌, length, take, drop, replicate, nat_eq, text_eq, ℕ, zero, suc, ◌+◌, ◌-◌,
  Bool, true, false, not, ◌&&◌, List, [], ◌∷◌, ◌++◌,
}

abbrev pub Bytes : Type 0
Bytes = List ℕ

abbrev pub frame_bytes : ℕ
frame_bytes = 320

abbrev pub playout_prebuffer_frames : ℕ
playout_prebuffer_frames = 20

abbrev pub queue_size : ℕ
queue_size = 300

-- The chunks still to come, the locals of `feed_playout`, the frames that it waits to put, the
-- queue with its count of unfinished items, and the pump with the frames it has taken.
pub record Playout : Type 0 where
  pub chunks : List Bytes
  pub leftover : Bytes
  pub cushion : List Bytes
  pub primed : Bool
  pub outbox : List Bytes
  pub ended : Bool
  pub items : List Bytes
  pub unfinished : ℕ
  pub taken : List Bytes
  pub pump_ts : ℕ
  pub running : Bool

unfoldable pub start_playout : Bool → List Bytes → Playout
start_playout ambient_active chunks = record {
  chunks = chunks;
  leftover = [];
  cushion = [];
  primed = not ambient_active;
  outbox = [];
  ended = false;
  items = [];
  unfinished = 0;
  taken = [];
  pump_ts = 0;
  running = true;
}

-- The whole frames of a buffer and what is left of it, on fuel: each frame takes a byte of it.
unfoldable pub slice : ℕ → Bytes → List Bytes × Bytes
slice zero buf = ([], buf)
slice (suc n) buf =
    let rest = slice n (drop frame_bytes buf) in
    if leb frame_bytes (length buf) then (take frame_bytes buf ∷ rest.0, rest.1) else ([], buf)

-- A frame is put at once, or held until the cushion is full.
unfoldable pub offer : Bytes → Playout → Playout
offer frame p =
    let held = p.cushion ++ frame ∷ [] in
    if p.primed
    then record p { outbox = p.outbox ++ frame ∷ [] }
    else (if leb playout_prebuffer_frames (length held)
        then record p { outbox = p.outbox ++ held; cushion = []; primed = true }
        else record p { cushion = held })

unfoldable pub offer_all : List Bytes → Playout → Playout
offer_all [] p = p
offer_all (frame ∷ rest) p = offer_all rest (offer frame p)

unfoldable pub take_chunk : Bytes → List Bytes → Playout → Playout
unfolding slice offer_all
take_chunk chunk rest p =
    let buf = p.leftover ++ chunk in
    let (frames, leftover) = slice (length buf) buf in
    record (offer_all frames p) { leftover = leftover; chunks = rest }

unfoldable pub padded : Bytes → List Bytes
padded [] = []
padded (b ∷ bs) = (b ∷ bs ++ replicate (frame_bytes - length (b ∷ bs)) 0) ∷ []

-- The stream has ended.
unfoldable pub finish : Playout → Playout
finish p = record p {
  outbox = p.cushion ++ padded p.leftover;
  cushion = [];
  leftover = [];
  ended = true;
}

-- A turn of `feed_playout`, given what it waits to put and the chunks to come: `q.put` of a frame,
-- which waits while the queue is full, the next chunk, the end of the stream, or `q.join`.
unfoldable pub feed_turn : List Bytes → List Bytes → Playout → Playout
unfolding take_chunk finish
feed_turn (frame ∷ rest) chunks p =
    if ltb (length p.items) queue_size
    then record p { outbox = rest; items = p.items ++ frame ∷ []; unfinished = p.unfinished + 1 }
    else p
feed_turn [] (chunk ∷ rest) p = take_chunk chunk rest p
feed_turn [] [] p = if p.ended then p else finish p

-- What `push_audio` may do.
pub data Push : Type 0 where
  pushed not_joined push_failed : Push

unfoldable pub after_push : Push → Playout → Playout
after_push pushed p = record p { pump_ts = p.pump_ts + 10 }
after_push not_joined p = record p { running = false }
after_push push_failed p = p

-- A turn of `_outbound_loop`, given the queue: a frame of it is taken and marked done, or silence
-- is pushed.
unfoldable pub pump_turn : Push → List Bytes → Playout → Playout
unfolding after_push
pump_turn push [] p = if p.running then after_push push p else p
pump_turn push (frame ∷ rest) p =
    if p.running
    then after_push push
        (record p { items = rest; unfinished = p.unfinished - 1; taken = p.taken ++ frame ∷ [] })
    else p

-- `stops` is `stop_outbound_pump`, which cancels the pump in its sleep.
pub data Turn : Type 0 where
  feeds : Turn
  pumps : Push → Turn
  stops : Turn

unfoldable pub turn : Turn → Playout → Playout
unfolding feed_turn pump_turn
turn feeds p = feed_turn p.outbox p.chunks p
turn (pumps push) p = pump_turn push p.items p
turn stops p = record p { running = false }

unfoldable pub run : List Turn → Playout → Playout
unfolding turn
run [] p = p
run (t ∷ rest) p = run rest (turn t p)

-- `q.join` lets `feed_playout` return.
unfoldable pub has_returned : Playout → Bool
has_returned p = p.ended && (leb (length p.outbox) 0 && leb p.unfinished 0)
