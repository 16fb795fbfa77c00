-- ===== src/Examples/Retention.antt =====
-- A maintenance cycle on a database of notes (src/worker/retention.rs).
use silicon_commit.Base.{ℕ, ◌-◌, min, false, Result, ok, pos}
use silicon_commit.Worker.Retention.{RetentionRow, RetentionCycleReport, RetentionError}

abbrev purged : ℕ → RetentionRow
purged n = record {
  notes_purged = pos n;
  attachments_purged = pos 0;
  activity_changes_redacted = pos 0;
  activity_purged = pos 0;
  todos_redacted = pos 0;
  idempotency_purged = pos 0;
  audit_purged = pos 0;
  delivered_outbox_purged = pos 0;
  dead_letter_outbox_purged = pos 0;
}

-- The state is the number of notes that are due.
abbrev purge_notes : ℕ → ℕ → Result (RetentionRow × ℕ) RetentionError
purge_notes batch due = ok (purged (min batch due), due - batch)

abbrev no_contracts : ℕ → Result ℕ RetentionError
no_contracts due = ok due

abbrev five_notes : RetentionCycleReport
five_notes = record {
  passes = 3;
  pass_budget_exhausted = false;
  totals = record {
    notes_purged = 5;
    attachments_purged = 0;
    activity_changes_redacted = 0;
    activity_purged = 0;
    todos_redacted = 0;
    idempotency_purged = 0;
    audit_purged = 0;
    delivered_outbox_purged = 0;
    dead_letter_outbox_purged = 0;
  };
}
