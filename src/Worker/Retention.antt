-- ===== src/Worker/Retention.antt =====
-- src/worker/retention.rs: one maintenance cycle. The routine `commit.run_retention_pass` and
-- `commit.sunset_idle_contracts` of the database are the parameters `pass` and `sunset`, steps on its
-- state that may fail.
pub mod Cycle
use silicon_commit.Base.{
  ℕ, zero, suc, ◌+◌, ◌-◌, min, Bool, true, false, not, ◌||◌, List, [], ◌∷◌, any, leb, ltb,
  if◌then◌else◌, Result, ok, err, fail_if, ◌>>=◌, ◌>>◌, ℤ, pos, negsuc,
}

abbrev pub max_passes_per_cycle : ℕ
max_passes_per_cycle = 128

-- `u64::MAX`
abbrev pub u64_max : ℕ
u64_max = 18446744073709551615

-- A count for each kind of record, of type `u64` in a report and `i64` in a row
pub record Counts (N : Type 0) : Type 0 where
  pub notes_purged : N
  pub attachments_purged : N
  pub activity_changes_redacted : N
  pub activity_purged : N
  pub todos_redacted : N
  pub idempotency_purged : N
  pub audit_purged : N
  pub delivered_outbox_purged : N
  pub dead_letter_outbox_purged : N

abbrev pub RetentionReport : Type 0
RetentionReport = Counts ℕ

abbrev pub RetentionRow : Type 0
RetentionRow = Counts ℤ

pub data RetentionError : Type 0 where
  negative_count database_failure batch_out_of_range : RetentionError

-- `u64::try_from` of an `i64`
unfoldable pub to_u64 : ℤ → Result ℕ RetentionError
to_u64 (pos n) = ok n
to_u64 (negsuc n) = err negative_count

-- `RetentionReport::try_from`
unfoldable pub report_of_row : RetentionRow → Result RetentionReport RetentionError
unfolding to_u64
report_of_row row = do
  notes ← to_u64 row.notes_purged
  attachments ← to_u64 row.attachments_purged
  changes ← to_u64 row.activity_changes_redacted
  activity ← to_u64 row.activity_purged
  todos ← to_u64 row.todos_redacted
  idempotency ← to_u64 row.idempotency_purged
  audit ← to_u64 row.audit_purged
  sent ← to_u64 row.delivered_outbox_purged
  dead ← to_u64 row.dead_letter_outbox_purged
  ok (record {
    notes_purged = notes;
    attachments_purged = attachments;
    activity_changes_redacted = changes;
    activity_purged = activity;
    todos_redacted = todos;
    idempotency_purged = idempotency;
    audit_purged = audit;
    delivered_outbox_purged = sent;
    dead_letter_outbox_purged = dead;
  })

-- `RetentionReport::reached_batch_limit`
unfoldable pub reached_batch_limit : RetentionReport → ℕ → Bool
reached_batch_limit r batch_size =
    any (λ affected. leb batch_size affected)
      (r.notes_purged ∷ r.attachments_purged ∷ r.activity_changes_redacted ∷ r.activity_purged
        ∷ r.todos_redacted ∷ r.idempotency_purged ∷ r.audit_purged ∷ r.delivered_outbox_purged
        ∷ r.dead_letter_outbox_purged ∷ [])

-- `u64::saturating_add`
abbrev pub saturating_add : ℕ → ℕ → ℕ
saturating_add a b = min (a + b) u64_max

-- `RetentionReport::accumulate`
unfoldable pub accumulate : RetentionReport → RetentionReport → RetentionReport
accumulate t p = record {
  notes_purged = saturating_add t.notes_purged p.notes_purged;
  attachments_purged = saturating_add t.attachments_purged p.attachments_purged;
  activity_changes_redacted =
      saturating_add t.activity_changes_redacted p.activity_changes_redacted;
  activity_purged = saturating_add t.activity_purged p.activity_purged;
  todos_redacted = saturating_add t.todos_redacted p.todos_redacted;
  idempotency_purged = saturating_add t.idempotency_purged p.idempotency_purged;
  audit_purged = saturating_add t.audit_purged p.audit_purged;
  delivered_outbox_purged = saturating_add t.delivered_outbox_purged p.delivered_outbox_purged;
  dead_letter_outbox_purged =
      saturating_add t.dead_letter_outbox_purged p.dead_letter_outbox_purged;
}

-- `RetentionReport::default`
abbrev pub no_records : RetentionReport
no_records = record {
  notes_purged = 0;
  attachments_purged = 0;
  activity_changes_redacted = 0;
  activity_purged = 0;
  todos_redacted = 0;
  idempotency_purged = 0;
  audit_purged = 0;
  delivered_outbox_purged = 0;
  dead_letter_outbox_purged = 0;
}

pub record RetentionCycleReport : Type 0 where
  pub passes : ℕ
  pub pass_budget_exhausted : Bool
  pub totals : RetentionReport

module _ {S : Type 0} (pass : ℕ → S → Result (RetentionRow × S) RetentionError)
    (batch_size : ℕ) where
  -- `run_once`
  unfoldable pub run_once : S → Result (RetentionReport × S) RetentionError
  run_once s = do
    fail_if (ltb 2147483647 batch_size) batch_out_of_range
    done ← pass batch_size s
    report ← report_of_row done.0
    ok (report, done.1)

  -- The loop of `run_cycle`, with `left` passes to go of `max_passes_per_cycle`
  unfoldable pub run_passes :
      ℕ → RetentionReport → S → Result (RetentionCycleReport × S) RetentionError
  run_passes zero totals s =
      ok
        (record { passes = max_passes_per_cycle; pass_budget_exhausted = true; totals = totals }, s)
  run_passes (suc left) totals s = run_once s >>= λ done.
      elim (reached_batch_limit done.0 batch_size) [
        | true ↦ run_passes left (accumulate totals done.0) done.1
        | false ↦ ok (
          record {
            passes = max_passes_per_cycle - left;
            pass_budget_exhausted = false;
            totals = accumulate totals done.0;
          },
          done.1,
        )
      ]

  unfoldable pub run_cycle :
      (S → Result S RetentionError) → S → Result (RetentionCycleReport × S) RetentionError
  unfolding run_passes
  run_cycle sunset s = sunset s >>= run_passes max_passes_per_cycle no_records
