-- ===== src/Streaming/Types.antt =====
-- isales_engine/streaming/types.py: the outcome of one referee call.
use isales_engine.Prelude.{
  if◌then◌else◌, nat_eq, text_eq, Text, text, non_empty, ℕ, Option, none, some,
}

abbrev pub failopen_timeout : Text
failopen_timeout = text "timeout"

abbrev pub failopen_invalid : Text
failopen_invalid = text "invalid"

-- `confidence` is 0.0 or 1.0 wherever the program writes it: here 0 or 1.
pub record RefereeResult : Type 0 where
  pub label : Text
  pub category : Option Text
  pub confidence : ℕ
  pub duration_ms : ℕ
  pub raw_output : Option Text
  pub failopen_reason : Option Text

unfoldable pub fail_open : Text → Text → ℕ → Option Text → RefereeResult
fail_open label reason duration_ms raw_output = record {
  label = label;
  category = none;
  confidence = 0;
  duration_ms = duration_ms;
  raw_output = raw_output;
  failopen_reason = some reason;
}

unfoldable pub effective_category : RefereeResult → Option Text
effective_category r = r.category

-- `self.failopen_reason or FAILOPEN_INVALID`: an empty reason counts as none.
reason_or_invalid : Option Text → Text
reason_or_invalid none = failopen_invalid
reason_or_invalid (some reason) = if non_empty reason then reason else failopen_invalid

unfoldable pub trace_category : RefereeResult → Text
unfolding reason_or_invalid
trace_category r = elim r.category [
  | none ↦ reason_or_invalid r.failopen_reason
  | some category ↦ category
]

-- One element of `referee_results` in the trace.
pub record RefereeTrace : Type 0 where
  pub label : Text
  pub category : Text
  pub confidence : ℕ
  pub duration_ms : ℕ

unfoldable pub as_trace : RefereeResult → RefereeTrace
unfolding trace_category
as_trace r = record {
  label = r.label;
  category = trace_category r;
  confidence = r.confidence;
  duration_ms = r.duration_ms;
}
