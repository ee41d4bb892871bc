-- ===== src/CallSession/Mirror.antt =====
-- The dialog history against the transcript.
use isales_engine.CallSession.{
  CallSession, Event, Recorded, recorded, value_error, schema_error, new, turn_of, mirror,
  append_event, is_dialog, is_known,
}
use mathlib.Core.List.{map-append}
use isales_engine.Prelude.{
  Bool-cases, keep, All, All-append, keep-append, nat_eq, text_eq, Text, Dict, ℕ, ◌≡◌, refl, sym,
  ap, ◌∙◌, inl, inr, Bool, true, not, ◌&&◌, List, [], ◌∷◌, ◌++◌, map, append-nil,
}

-- The session that a call of `append_event` leaves, whether it returned or raised.
abbrev pub left : Recorded → CallSession
left (recorded s) = s
left (value_error s) = s
left (schema_error s) = s

-- The dialog history is the transcript's events of conversation, as turns, in order; and the
-- transcript holds events of the known types only.
pub record IsMirrored (s : CallSession) : Type 0 where
  pub mirrored : s.dialog_history ≡ map turn_of (keep (λ e. is_dialog e.kind) s.full_transcript)
  pub known : All (λ e. is_known e.kind ≡ true) s.full_transcript

mirror-append :
    (event : Event) (transcript : List Event)
    → mirror event (map turn_of (keep (λ e. is_dialog e.kind) transcript))
      ≡ map turn_of (keep (λ e. is_dialog e.kind) (transcript ++ event ∷ []))
unfolding mirror
mirror-append event transcript = rw keep-append (elim (Bool-cases (is_dialog event.kind)) [
  | inl spoken ↦
      rw (spoken, mirror)
        (sym (map-append turn_of (keep (λ e. is_dialog e.kind) transcript) (event ∷ [])))
  | inr silent ↦
      rw (silent, mirror)
        (sym (ap (map turn_of) (append-nil (keep (λ e. is_dialog e.kind) transcript))))
])

module _ (admits : Event → Bool) (strict : Bool) where
  -- Whether `append_event` returns or raises, the dialog history stays the conversation part of
  -- the transcript.
  pub append_event-IsMirrored :
      (event_type : Text) (ts_ms : ℕ) (fields : Dict Text Text) (s : CallSession)
      → IsMirrored s
      → IsMirrored (left (append_event admits strict event_type ts_ms fields s))
  append_event-IsMirrored event_type ts_ms fields s h = elim (Bool-cases (is_known event_type)) [
    | inr unknown ↦ unfold append_event in rw unknown h
    | inl known ↦
        unfold append_event in
        rw known (
          let event : Event = record { kind = event_type; ts = ts_ms; fields = fields } in
          elim (Bool-cases (not (admits event) && strict)) [
            | inl refused ↦ rw refused h
            | inr taken ↦ rw taken (record {
              mirrored = ap (mirror event) h.mirrored ∙ mirror-append event s.full_transcript;
              known =
                  All-append (λ e. is_known e.kind ≡ true) s.full_transcript (event ∷ []) h.known
                    (known, tt);
            })
          ])
  ]

pub new-IsMirrored : IsMirrored new
unfolding new
new-IsMirrored = record { mirrored = refl; known = tt }
