-- ===== src/RunLoop/Playing.antt =====
-- isales_engine/run_loop.py: playback. A text is handed to the telephony, which plays until it is
-- done, fails, or is cancelled by the monitor; a reply is played sentence by sentence, and what a
-- barge-in leaves unspoken is kept. A cancelled playback stops, as each telephony client promises;
-- so does one during which a manual hangup cancels the main task, since the cancellation goes to
-- the playback that it awaits.
use isales_engine.RunLoop.{
  Call, Surroundings, Ending, finished, failed, stopped, Speaking, playing, cancel_requested,
  Action, Outcome, returned, threw, cancelled, pure, throw, emit, terminate, manual_hangup, ◌>>◌,
}
use isales_engine.RunLoop.Monitor.{hear_all}
use isales_engine.Realtime.InterruptionRules.{Rule}
use isales_engine.Pipeline.Orchestrator.{default_reply, default_reason}
use isales_engine.Prelude.{
  ltb, if◌then◌else◌, length, take, concat, nat_eq, text_eq, ◌==◌, Text, text, strip, non_empty, ℕ,
  zero, suc, Bool, true, false, Option, none, some, List, [], ◌∷◌, ◌++◌,
}

-- A reply as its stream yields it: the sentences of the model or of the fallback, what
-- `result.reply_text` and `result.error` then hold, and the tokens. When the caller barges in, the
-- producer has had `turns` turns at the sentences behind the one that plays, and `buffered`
-- sentences lie in the replay buffer beyond those it has taken. A manual hangup may come while the
-- next job is awaited, with `stopped_before` sentences left.
pub record Reply : Type 0 where
  pub core : List Text
  pub reply_text : Text
  pub error : Option Text
  pub draw : ℕ
  pub turns : ℕ
  pub stopped_before : Option ℕ
  pub buffered : ℕ
  pub tokens_in : ℕ
  pub tokens_out : ℕ

-- `stream.is_restructure` and `stream.is_eager`
pub record StreamKind : Type 0 where
  pub is_restructure : Bool
  pub is_eager : Bool

-- `result.reply_text` once the sentences have been asked for to the end
unfoldable pub final_text : List Text → Reply → Text
unfolding default_reply
final_text default_replies reply =
    if non_empty (strip reply.reply_text)
    then reply.reply_text
    else default_reply reply.draw default_replies

-- `remaining or None`
unfoldable pub or_none : Text → Option Text
or_none [] = none
or_none (c ∷ cs) = some (c ∷ cs)

-- `job_q` with the sentences of its jobs, the job that `_producer` waits to put, and the sentences
-- that it has not taken from the stream.
pub record Jobs : Type 0 where
  pub queue : List Text
  pub pending : Option Text
  pub coming : List Text

abbrev pub job_queue_size : ℕ
job_queue_size = 2

-- A turn of `_producer`: it puts what it holds as soon as there is room, otherwise it takes the next
-- sentence and holds it.
unfoldable pub put_job : Text → Jobs → Jobs
put_job s j =
    if ltb (length j.queue) job_queue_size
    then record j { queue = j.queue ++ s ∷ []; pending = none }
    else record j { pending = some s }

unfoldable pub producer_turn : Option Text → List Text → Jobs → Jobs
unfolding put_job
producer_turn (some s) coming j = put_job s j
producer_turn none [] j = j
producer_turn none (s ∷ rest) j = put_job s (record j { coming = rest })

unfoldable pub produced : ℕ → Jobs → Jobs
unfolding producer_turn
produced zero j = j
produced (suc n) j = produced n (producer_turn j.pending j.coming j)

-- `captured`, at a barge-in into `current` with the sentences `rest` to come: the jobs that the
-- `finally` drains from the queue, and what the replay buffer has beyond the sentences that the
-- producer has taken from it. The cancelled producer closes the job that it holds.
unfoldable pub captured : StreamKind → Reply → Text → List Text → Text
unfolding produced
captured kind reply current rest =
    let j = produced reply.turns (record { queue = []; pending = none; coming = rest }) in
    strip (
      current
      ++ (concat j.queue ++ (if kind.is_eager then concat (take reply.buffered j.coming) else [])))

module _ (env : Surroundings) (rule : Rule env.re.Pattern) where
  -- The `try` around `await play_task`: a playback that is cancelled gives `false`, whether the
  -- monitor cancelled it or `main.cancel()` of a manual hangup did, which is swallowed with it.
  unfoldable pub ended : Option Speaking → Ending → Action Bool
  unfolding pure throw
  ended (some cancel_requested) finished = pure false
  ended (some cancel_requested) failed = pure false
  ended (some playing) finished = pure true
  ended (some playing) failed = throw
  ended none finished = pure true
  ended none failed = throw
  ended task stopped = λ c. (returned false, record c { hangup_cause = some manual_hangup })

  -- `_play_tts` and `_play_chunks`: whether the text was played in full. The `finally` clears the
  -- task in every case.
  unfoldable pub play_tts : Text → Bool → Action Bool
  unfolding hear_all ended
  play_tts said interruptible c =
      let here = env.playback (length c.spoken) in
      let started = record c {
        spoken = c.spoken ++ said ∷ [];
        current_speaking_task = if interruptible then some playing else none;
      } in
      let heard = hear_all env rule here.heard started in
      ended heard.current_speaking_task here.ending (record heard { current_speaking_task = none })

  -- the `finally` of `_play_streaming`
  unfoldable pub capture : StreamKind → Reply → Text → List Text → Call → Call
  unfolding captured or_none
  capture kind reply current rest c =
      if kind.is_restructure
      then c
      else record c { interrupt_remaining_text = or_none (captured kind reply current rest) }

  -- An exception of one playback ends the turn's playback, which counts as played in full.
  unfoldable pub after_sentence :
      StreamKind → Reply → Text → List Text → Action Bool → Bool → Action Bool
  unfolding capture
  after_sentence kind reply said rest others true c = others c
  after_sentence kind reply said rest others false c =
      (returned false, capture kind reply said rest c)

  unfoldable pub caught : Outcome Bool × Call → (Bool → Action Bool) → Outcome Bool × Call
  caught (returned played, c) k = k played c
  caught (threw, c) k = (returned true, c)
  caught (cancelled, c) k = (cancelled, c)
  caught (Outcome.waiting, c) k = (Outcome.waiting, c)

  -- `job_q.get()`, with so many sentences left. A cancelled wait leaves `_play_streaming`.
  unfoldable pub next_job : Option ℕ → ℕ → Outcome Bool × Call → Call → Outcome Bool × Call
  unfolding terminate
  next_job none left played c = played
  next_job (some n) left played c = if n == left then terminate c else played

  unfoldable pub play_sentences : StreamKind → Reply → List Text → Action Bool
  unfolding play_tts caught after_sentence next_job
  play_sentences kind reply [] c = next_job reply.stopped_before 0 (returned true, c) c
  play_sentences kind reply (s ∷ rest) c =
      next_job reply.stopped_before (suc (length rest))
        (caught (play_tts s true c)
          (after_sentence kind reply s rest (play_sentences kind reply rest)))
        c

  -- `_play_streaming` over `PipelineStream.sentences`: a reply with no text, which has no sentence
  -- either, is replaced by a default one.
  unfoldable pub play_streaming : List Text → StreamKind → Reply → Action Bool
  unfolding default_reply
  play_streaming default_replies kind reply =
      if non_empty (strip reply.reply_text) then play_sentences kind reply reply.core else (do
        let said = default_reply reply.draw default_replies
        emit env (text "default_reply_used")
            ((text "text", said) ∷ (text "reason", default_reason reply.error) ∷ [])
        play_sentences kind reply (said ∷ []))
