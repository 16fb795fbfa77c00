-- ===== src/Worker/Outbox/Policy.antt =====
-- What `validate_worker_settings` of src/config.rs is for: the statements of src/worker/outbox.rs
-- under settings that it accepts.
use silicon_commit.Base.{
  ◌+◌, ◌*◌, ◌≤◌, ◌<◌, ◌≡◌, max, true, false, not, ◌||◌, Option, some, list_eq, option_eq, nat_eq,
}
use silicon_commit.Text.{Text}
use silicon_commit.Config.{Duration, second, as_secs, as_millis, WorkerSettings}
use silicon_commit.Domain.Notification.Version.{i64_max}
use silicon_commit.Domain.Todo.{Time}
use silicon_commit.Worker.Outbox.{
  OutboxEvent, ClaimedEvent, WebhookPublishError, recoverable, claim, holds_lease, mark_delivered,
  mark_failed, is_retryable, is_exhausted, retry_after_of, outbox_status_eq,
}
use silicon_commit.Worker.Outbox.Invariant.{IsOutboxPolicy}

-- The durations fit the integers of the database, and the stored responses outlive a day but no
-- tombstone.
pub record IsInRange (ttl : Duration) (w : WorkerSettings) : Type 0 where
  pub day : 86400 * second ≤ ttl
  pub replays : ttl ≤ w.todo_tombstone_retention
  pub ttl_range : as_millis ttl ≤ i64_max
  pub tombstone_range : as_secs w.todo_tombstone_retention ≤ i64_max
  pub audit_range : as_secs w.audit_retention ≤ i64_max
  pub batch : w.batch_size ≤ 10000
  pub maintenance_batch : w.maintenance_batch_size ≤ 10000
  pub concurrency : w.delivery_concurrency ≤ 256

-- The row keeps its evidence from a time on for a retention, which is long enough.
pub record IsKept (at purge : Option Time) (retention least : Duration) : Type 0 where
  pub since : Time
  pub stated : at ≡ some since
  pub kept_until : purge ≡ some (since + as_secs retention * second)
  pub enough : least ≤ as_secs retention * second

-- A claimed event is not taken back while the request of its delivery may last; delivered events
-- and dead letters keep their evidence for the configured time, 30 and 90 days at least; a retry
-- waits for the whole delay. The constraints of the table are kept.
pub record IsHonoured (w : WorkerSettings) (timeout : Duration) : Type 0 where
  pub policy : IsOutboxPolicy w
  pub leased :
      (worker : Text) (clock tx : Time) (e : OutboxEvent)
      → tx < clock + timeout
      → recoverable w tx (claim w worker clock e) ≡ false
  pub delivered :
      (worker : Text) (c : ClaimedEvent) (clock : Time) (e : OutboxEvent)
      → holds_lease worker c e ≡ true
      → IsKept
          (mark_delivered w worker c clock e).delivered_at
          (mark_delivered w worker c clock e).purge_after
          w.delivered_outbox_retention
          (2592000 * second)
  pub given_up :
      (worker : Text) (c : ClaimedEvent) (error : WebhookPublishError) (clock : Time)
      (e : OutboxEvent)
      → holds_lease worker c e ≡ true
      → (not (is_retryable error) || is_exhausted w c.attempt_count) ≡ true
      → IsKept
          (mark_failed w worker c error clock e).dead_lettered_at
          (mark_failed w worker c error clock e).purge_after
          w.dead_letter_outbox_retention
          (7776000 * second)
  pub retried :
      (worker : Text) (c : ClaimedEvent) (error : WebhookPublishError) (clock : Time)
      (e : OutboxEvent)
      → holds_lease worker c e ≡ true
      → (not (is_retryable error) || is_exhausted w c.attempt_count) ≡ false
      → (mark_failed w worker c error clock e).available_at
        ≡ max e.updated_at (max e.available_at clock)
          + as_millis (retry_after_of w c error) * 1000000
