-- ===== src/Realtime/Playout/Examples.antt =====
-- Tests of playback, and the results about it at concrete inputs.
use isales_engine.Realtime.Playout.{
  Bytes, start_playout, slice, offer, offer_all, take_chunk, feed_turn, pushed, not_joined,
  push_failed, after_push, pump_turn, Turn, feeds, pumps, turn, run, has_returned,
}
use isales_engine.Realtime.Playout.Delivery.{IsPlayed, run-IsPlayed}
use isales_engine.Realtime.Playout.Progress.{work, rounds, run-rounds_return}
use isales_engine.Realtime.Playout.Stuck.{run-stuck}
use isales_engine.Prelude.{
  length, replicate, nat_eq, text_eq, ◌<◌, ◌≡◌, refl, true, false, List, [], ◌∷◌, ◌++◌, arith,
}

-- Two frames and a half, cut in the middle of the first one.
abbrev spoken : List Bytes
spoken = replicate 100 1 ∷ replicate 700 2 ∷ []

abbrev fed : List Turn
fed = feeds ∷ feeds ∷ feeds ∷ pumps push_failed ∷ feeds ∷ []

abbrev queued : List Turn
queued = feeds ∷ feeds ∷ feeds ∷ feeds ∷ []

run-IsPlayed_example : IsPlayed spoken (run fed (start_playout true spoken))
run-IsPlayed_example = run-IsPlayed true spoken fed

run-rounds_return_example :
    has_returned
      (run (fed ++ rounds (work (run fed (start_playout true spoken)))) (start_playout true spoken))
    ≡ true
run-rounds_return_example =
    run-rounds_return true spoken fed (tt, (tt, (tt, ((λ e. cc), (tt, tt)))))

two_queued : 1 < length (run queued (start_playout false spoken)).items
unfolding run turn feed_turn take_chunk slice offer_all offer start_playout
two_queued = omega arith

run-stuck_example :
    has_returned (
      run
        (pumps pushed ∷ feeds ∷ [])
        (turn (pumps not_joined) (run queued (start_playout false spoken))))
    ≡ false
run-stuck_example = run-stuck false spoken queued (pumps pushed ∷ feeds ∷ []) two_queued

unprimed_frames : length (run fed (start_playout false spoken)).taken ≡ 1
unfolding run turn feed_turn pump_turn after_push take_chunk slice offer_all offer start_playout
unprimed_frames = refl
