-- ===== src/Realtime/Playout/Stuck.antt =====
-- When `feed_playout` cannot return.
use isales_engine.Realtime.Playout.{
  Bytes, Playout, start_playout, slice, take_chunk, finish, feed_turn, Push, not_joined, after_push,
  pump_turn, Turn, feeds, pumps, stops, turn, run, has_returned,
}
use isales_engine.Realtime.Playout.Frames.{offer_all-Kept}
use isales_engine.Realtime.Playout.Stream.{start_playout-Streams}
use isales_engine.Realtime.Playout.Turns.{run-Streams}
use isales_engine.Realtime.Playout.Progress.{feed_turn-running}
use isales_engine.Prelude.{
  length, nat_eq, text_eq, ◌<◌, ◌≡◌, refl, ◌∙◌, Bool, false, List, [], ◌∷◌, ◌++◌, arith,
}

-- A pump that is down leaves the queue as it is.
feed_turn-unfinished :
    (outbox chunks : List Bytes) (p : Playout)
    → 0 < p.unfinished
    → 0 < (feed_turn outbox chunks p).unfinished
unfolding feed_turn take_chunk finish
feed_turn-unfinished (frame ∷ rest) chunks p more = ground (arith, more)
feed_turn-unfinished [] (chunk ∷ rest) p more =
    let buf = p.leftover ++ chunk in
    omega (arith, more, (offer_all-Kept (slice (length buf) buf).0 p).1)
feed_turn-unfinished [] [] p more = ground (arith, more)

down_pump :
    (push : Push) (items : List Bytes) (p : Playout)
    → p.running ≡ false
    → 0 < p.unfinished
    → ((pump_turn push items p).running ≡ false) × (0 < (pump_turn push items p).unfinished)
unfolding pump_turn
down_pump push [] p off more = ground (arith, off, more)
down_pump push (frame ∷ rest) p off more = ground (arith, off, more)

breaks :
    (items : List Bytes) (p : Playout)
    → 1 < p.unfinished
    → ((pump_turn not_joined items p).running ≡ false)
      × (0 < (pump_turn not_joined items p).unfinished)
unfolding pump_turn after_push
breaks [] p more = ground (arith, more)
breaks (frame ∷ rest) p more = ground (arith, more)

down_turn :
    (t : Turn) (p : Playout)
    → p.running ≡ false
    → 0 < p.unfinished
    → ((turn t p).running ≡ false) × (0 < (turn t p).unfinished)
unfolding turn
down_turn feeds p off more =
    (feed_turn-running p.outbox p.chunks p ∙ off, feed_turn-unfinished p.outbox p.chunks p more)
down_turn (pumps push) p off more = down_pump push p.items p off more
down_turn stops p off more = (refl, more)

down_run :
    (turns : List Turn) (p : Playout)
    → p.running ≡ false
    → 0 < p.unfinished
    → has_returned (run turns p) ≡ false
unfolding run
down_run [] p off more = unfold has_returned in ground (arith, more)
down_run (t ∷ turns) p off more =
    let (off', more') = down_turn t p off more in down_run turns (turn t p) off' more'

-- A pump that meets a channel that is not joined, while the queue holds a frame beyond the one that
-- it takes, leaves `feed_playout` waiting whatever turns follow.
pub run-stuck :
    (ambient_active : Bool) (chunks : List Bytes) (turns more : List Turn)
    → 1 < length (run turns (start_playout ambient_active chunks)).items
    → has_returned
        (run more (turn (pumps not_joined) (run turns (start_playout ambient_active chunks))))
      ≡ false
run-stuck ambient_active chunks turns more few =
    let p0 = start_playout ambient_active chunks in
    let p = run turns p0 in
    let h = run-Streams chunks turns p0 (start_playout-Streams ambient_active chunks) in
    let (off, held) = breaks p.items p (omega (arith, few, h.counted)) in
    down_run more (turn (pumps not_joined) p) (unfold turn in off) (unfold turn in held)
