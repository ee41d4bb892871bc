-- ===== src/Realtime/Filler.antt =====
-- isales_engine/realtime/filler_manager.py: phrases that bridge the wait for a reply. The set of
-- used phrases belongs to the call's session; the playback task is idle, playing or done.
pub mod Rounds
mod Examples
use isales_engine.Realtime.Choice.{choice}
use isales_engine.Prelude.{
  if◌then◌else◌, length, keep, nat_eq, text_eq, mem, Text, strip, non_empty, ℕ, ◌*◌, max, Bool,
  true, false, not, Option, none, some, List, [], ◌∷◌, ◌++◌,
}

-- `[p for p in self._phrases if p.strip()]`
unfoldable pub ready_phrases : List Text → List Text
ready_phrases phrases = keep (λ p. non_empty (strip p)) phrases

-- `[p for p in ready if p not in used]`
unfoldable pub unused_phrases : List Text → List Text → List Text
unused_phrases used ready = keep (λ p. not (mem p used)) ready

-- The draw from the unused phrases, or from all of them after the set is cleared.
pick_from : ℕ → List Text → List Text → List Text → Option (Text × List Text)
unfolding choice
pick_from draw used (p ∷ ps) ready = let phrase = choice draw p ps in some (phrase, phrase ∷ used)
pick_from draw used [] [] = none
pick_from draw used [] (p ∷ ps) = let phrase = choice draw p ps in some (phrase, phrase ∷ [])

-- `_pick_phrase`: the phrase and the used set behind it, or nothing to say
unfoldable pub pick_phrase : ℕ → List Text → List Text → Option (Text × List Text)
unfolding pick_from ready_phrases unused_phrases
pick_phrase draw phrases used =
    pick_from draw used (unused_phrases used (ready_phrases phrases)) (ready_phrases phrases)

pub data Playback : Type 0 where
  idle done : Playback
  playing : Text → Playback

pub record FillerManager : Type 0 where
  pub phrases : List Text
  pub used_filler_phrases : List Text
  pub task : Playback
  pub stopped : Bool
  pub filler_events : List (Text × ℕ)  -- the `filler` events of the session

begin : FillerManager → Option (Text × List Text) → FillerManager
begin m none = m
begin m (some (phrase, used)) = record m {
  used_filler_phrases = used;
  stopped = false;
  task = playing phrase;
}

start_task : Playback → ℕ → FillerManager → FillerManager
unfolding begin pick_phrase
start_task (playing phrase) draw m = m
start_task idle draw m = begin m (pick_phrase draw m.phrases m.used_filler_phrases)
start_task done draw m = begin m (pick_phrase draw m.phrases m.used_filler_phrases)

unfoldable pub start : ℕ → FillerManager → FillerManager
unfolding start_task
start draw m = start_task m.task draw m

-- The cancelled task logs nothing.
unfoldable pub stop : FillerManager → FillerManager
stop m = record m { stopped = true; task = idle }

-- How the telephony's playback of the phrase ends.
pub data PlayEnd : Type 0 where
  played failed : PlayEnd

-- `max(50, len(phrase) * 20)`
unfoldable pub approx_duration_ms : Text → ℕ
approx_duration_ms phrase = max 50 (length phrase * 20)

play_end : Playback → PlayEnd → FillerManager → FillerManager
unfolding approx_duration_ms
play_end (playing phrase) played m = if m.stopped then record m { task = done } else record m {
  task = done;
  filler_events = m.filler_events ++ (phrase, approx_duration_ms phrase) ∷ [];
}
play_end (playing phrase) failed m = record m { task = done }
play_end idle how m = m
play_end done how m = m

-- The rest of `_play`, once the playback has ended
unfoldable pub finish : PlayEnd → FillerManager → FillerManager
unfolding play_end
finish how m = play_end m.task how m
