-- ===== src/RunLoop/Listening.antt =====
-- isales_engine/run_loop.py: waiting. The wait for the call to be connected, the wait for the
-- caller's next words or silence, and the waits with a time limit for the referees and the detector.
use isales_engine.RunLoop.{
  Awaited, done, timed_out, raised, Action, pure, throw, terminate, Ending, finished, failed,
  stopped,
}
use isales_engine.Realtime.Silence.{evaluate_silence, SilenceConfig, SilenceDecision, Decision}
use isales_engine.Streaming.Types.{RefereeResult, fail_open, failopen_timeout, failopen_invalid}
use isales_engine.Prelude.Int.{ℤ}
use isales_engine.Prelude.{
  if◌then◌else◌, keep, nat_eq, text_eq, mem, Text, text, strip, non_empty, Bool, true, false, not,
  ◌||◌, Option, none, some, List, [], ◌∷◌, ◌++◌, map,
}

pub data TelephonyEvent : Type 0 where
  connected local_hangup remote_hangup device_error other : TelephonyEvent

-- The events until the call is connected or ended, the time limit included: past it the list ends.
unfoldable pub wait_connected : List TelephonyEvent → Bool
wait_connected [] = false
wait_connected (connected ∷ events) = true
wait_connected (local_hangup ∷ events) = false
wait_connected (remote_hangup ∷ events) = false
wait_connected (device_error ∷ events) = false
wait_connected (other ∷ events) = wait_connected events

-- `_dial_and_wait_connected`; the telephony itself may fail, or a hangup may stop the wait.
unfoldable pub dial_and_wait_connected : Ending → List TelephonyEvent → Action Bool
unfolding wait_connected terminate pure throw
dial_and_wait_connected finished events = pure (wait_connected events)
dial_and_wait_connected failed events = throw
dial_and_wait_connected stopped events = terminate

-- How one wait for the caller ends: the line is dropped, the caller's final comes with those that
-- are queued behind it, the window passes in silence after so many milliseconds, or a manual hangup.
pub data Waited : Type 0 where
  dropped : Waited
  finals : Text → List Text → Waited
  silent : ℤ → Waited
  stop : Waited

pub data UserAwait : Type 0 where
  user_final : Text → UserAwait
  silence_activation silence_hangup : Option Text → UserAwait
  remote_hangup no_progress : UserAwait

-- `" ".join(...)`
unfoldable pub join_words : List Text → Text
join_words [] = []
join_words (t ∷ []) = t
join_words (t ∷ u ∷ ts) = t ++ (text " " ++ join_words (u ∷ ts))

unfoldable pub combined : Text → List Text → Text
unfolding join_words
combined first queued = join_words (keep (λ t. non_empty t) (map (λ t. strip t) (first ∷ queued)))

unfoldable pub coalesce : List Text → Text → UserAwait
coalesce whitelist said =
    if not (non_empty said) || mem said whitelist then no_progress else user_final said

unfoldable pub silence_outcome : Option SilenceDecision → Action UserAwait
unfolding pure throw
silence_outcome none = throw
silence_outcome (some d) = elim d.decision [
  | Decision.activate ↦ pure (silence_activation d.phrase)
  | Decision.hangup ↦ pure (silence_hangup d.phrase)
  | Decision.wait ↦ pure no_progress
]

module _ (silence : SilenceConfig) (whitelist : List Text) where
  unfoldable pub await_user_or_silence : Waited → Action UserAwait
  unfolding combined coalesce silence_outcome terminate pure
  await_user_or_silence dropped = pure UserAwait.remote_hangup
  await_user_or_silence (finals first queued) = pure (coalesce whitelist (combined first queued))
  await_user_or_silence (silent elapsed) = λ c.
      silence_outcome (evaluate_silence elapsed c.silence_activation_count silence c.in_wrap_up) c
  await_user_or_silence stop = terminate

unfoldable pub await_one : Text → Awaited RefereeResult → RefereeResult
await_one label (done result) = result
await_one label timed_out = fail_open label failopen_timeout 0 none
await_one label raised = fail_open label failopen_invalid 0 none

-- `_await_referees`: one result for each task, by its label.
unfoldable pub await_referees : List Text → List (Awaited RefereeResult) → List RefereeResult
unfolding await_one
await_referees [] tasks = []
await_referees (label ∷ labels) [] = []
await_referees (label ∷ labels) (task ∷ tasks) = await_one label task ∷ await_referees labels tasks

-- `_resolve_transfer_llm`, of a task that may not have been spawned
unfoldable pub resolve_transfer_llm : {A : Type 0} → Option (Awaited A) → Option A
resolve_transfer_llm none = none
resolve_transfer_llm (some (done a)) = some a
resolve_transfer_llm (some timed_out) = none
resolve_transfer_llm (some raised) = none
