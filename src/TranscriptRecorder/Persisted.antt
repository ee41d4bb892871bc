-- ===== src/TranscriptRecorder/Persisted.antt =====
-- What the database holds once a call is persisted.
use isales_engine.TranscriptRecorder.{
  Fate, committed, rolled_back, unanswered, Database, CallRecord, RowStatus, LiveCall, trace_rows,
  row_of, written, transact, persist_call_record, duration_of, PipelineTrace,
}
use isales_engine.Prelude.{
  if◌then◌else◌, Bool-cases, nat_eq, text_eq, ◌==◌, Text, lookup-insert, lookup-insert_self, lookup,
  ℕ, zero, suc, ◌+◌, ◌≤◌, ◌≡◌, refl, ap, ◌∙◌, inl, inr, Bool, true, false, Option, none, some, List,
  arith,
}

-- The row of an ended call.
pub record IsEnded (call : LiveCall) (started_at ended_at : ℕ) (row : CallRecord) : Type 0 where
  pub status : row.status ≡ RowStatus.end_call
  pub duration : row.duration ≡ some (duration_of started_at ended_at)
  pub transcript : row.transcript ≡ call.session.full_transcript

pub record IsPersisted (call : LiveCall) (started_at ended_at retries : ℕ) (db : Database)
    (ok : Bool) (db' : Database) : Type 0 where
  pub row :
      ok ≡ true
      → (row : CallRecord) × (lookup call.call_record_id db'.call_records ≡ some row)
        × IsEnded call started_at ended_at row
  pub others :
      (i : ℕ)
      → (call.call_record_id == i) ≡ false
      → lookup i db'.call_records ≡ lookup i db.call_records
  pub attempts : db'.transactions ≤ db.transactions + retries

module _ (transfer_statuses : List Text) (fate : ℕ → Fate) (call : LiveCall)
    (started_at ended_at : ℕ) where
  row_of-IsEnded :
      (old : Option CallRecord)
      → IsEnded call started_at ended_at (row_of transfer_statuses call started_at ended_at old)
  unfolding row_of
  row_of-IsEnded old = record { status = refl; duration = refl; transcript = refl }

  abbrev new_row : Database → CallRecord
  new_row db =
      row_of transfer_statuses call started_at ended_at (lookup call.call_record_id db.call_records)

  abbrev Writes : Database → Option Database → Type 0
  Writes db none = Unit
  Writes db (some db') =
      (lookup call.call_record_id db'.call_records
        ≡ some (
            row_of transfer_statuses call started_at ended_at
              (lookup call.call_record_id db.call_records)))
      × ((i : ℕ)
          → (call.call_record_id == i) ≡ false
          → lookup i db'.call_records ≡ lookup i db.call_records)

  written-Writes :
      (db : Database) → Writes db (written transfer_statuses call started_at ended_at db)
  unfolding written
  written-Writes db =
      by_rows (trace_rows call.call_record_id started_at call.pipeline_trace_records) refl
    where
      by_rows :
          (rows : Option (List PipelineTrace))
          → trace_rows call.call_record_id started_at call.pipeline_trace_records ≡ rows
          → Writes db (written transfer_statuses call started_at ended_at db)
      by_rows none e = rw (e, written) tt
      by_rows (some rows) e =
          rw (e, written)
            (
              lookup-insert_self call.call_record_id (new_row db) db.call_records,
              λ i other.
                  lookup-insert call.call_record_id i (new_row db) db.call_records
                  ∙ ap (λ b. if b then some (new_row db) else lookup i db.call_records) other,
            )

  transact-IsPersisted :
      (next : Option Database) (db : Database)
      → Writes db next
      → IsPersisted call started_at ended_at 1 db
          (transact transfer_statuses fate next db).0
          (transact transfer_statuses fate next db).1
  unfolding transact
  transact-IsPersisted none db h = record {
    row = λ e. cc;
    others = λ i other. refl;
    attempts = omega arith;
  }
  transact-IsPersisted (some db') db h = by_fate (fate db.transactions) refl
    where
      by_fate :
          (f : Fate)
          → fate db.transactions ≡ f
          → IsPersisted call started_at ended_at 1 db
              (transact transfer_statuses fate (some db') db).0
              (transact transfer_statuses fate (some db') db).1
      by_fate committed e =
          rw (e, transact)
            (record {
              row = λ ok.
                  (new_row db, h.0, row_of-IsEnded (lookup call.call_record_id db.call_records));
              others = h.1;
              attempts = omega arith;
            })
      by_fate rolled_back e =
          rw (e, transact)
            (record { row = λ ok. cc; others = λ i other. refl; attempts = omega arith })
      by_fate unanswered e =
          rw (e, transact) (record { row = λ ok. cc; others = h.1; attempts = omega arith })

  -- However the transactions fare: at most the given number of them is made, the rows of other calls stay as
  -- they are, and where success is reported the call's row is there, ended, with the whole
  -- transcript and the time that the call took.
  pub persist_call_record-IsPersisted :
      (retries : ℕ) (db : Database)
      → IsPersisted call started_at ended_at retries db
          (persist_call_record transfer_statuses fate retries call started_at ended_at db).0
          (persist_call_record transfer_statuses fate retries call started_at ended_at db).1
  unfolding persist_call_record
  persist_call_record-IsPersisted zero db = record {
    row = λ e. cc;
    others = λ i other. refl;
    attempts = omega arith;
  }
  persist_call_record-IsPersisted (suc retries) db =
      let first =
        transact transfer_statuses fate (written transfer_statuses call started_at ended_at db)
          db in
      let once =
        transact-IsPersisted (written transfer_statuses call started_at ended_at db) db
          (written-Writes db) in
      let more = persist_call_record-IsPersisted retries first.1 in
      elim (Bool-cases first.0) [
        | inl ok ↦ rw ok (record {
          row = λ e. once.row ok;
          others = once.others;
          attempts = omega (arith, once.attempts);
        })
        | inr raised ↦ rw raised (record {
          row = more.row;
          others = λ i other. more.others i other ∙ once.others i other;
          attempts = omega (arith, once.attempts, more.attempts);
        })
      ]
