-- ===== src/Config.antt =====
-- src/config.rs: the policy of the outbox worker and its validation. A duration is a number of
-- nanoseconds; environment variables, databases and the rest of the settings are left out.
use silicon_commit.Base.{ℕ, ◌/◌, List, [], ◌∷◌, String, ltb, leb, Result, ok, fail_if, ◌>>◌}
use silicon_commit.Domain.Notification.Version.{i64_max}

abbrev pub Duration : Type 0
Duration = ℕ

abbrev pub second : Duration
second = 1000000000

abbrev pub hour : Duration
hour = 3600000000000

-- `Duration::as_secs` and `Duration::as_millis`
abbrev pub as_secs : Duration → ℕ
as_secs d = d / 1000000000

abbrev pub as_millis : Duration → ℕ
as_millis d = d / 1000000

pub record WorkerSettings : Type 0 where
  pub batch_size : ℕ
  pub delivery_concurrency : ℕ
  pub poll_interval : Duration
  pub lease_duration : Duration
  pub max_attempts : ℕ
  pub max_retry_delay : Duration
  pub maintenance_interval : Duration
  pub maintenance_batch_size : ℕ
  pub todo_tombstone_retention : Duration
  pub audit_retention : Duration
  pub delivered_outbox_retention : Duration
  pub dead_letter_outbox_retention : Duration

-- The variable that `SettingsError::Invalid` names
pub data SettingsError : Type 0 where
  invalid : (name : String) → SettingsError

unfoldable pub validate_i64_quantity : String → ℕ → Result (Unit {0}) SettingsError
validate_i64_quantity name quantity = fail_if (ltb i64_max quantity) (invalid name)

-- The `for` loop over the quantities
abbrev pub validate_quantities : List (String × ℕ) → Result (Unit {0}) SettingsError
validate_quantities [] = ok tt
validate_quantities ((name, quantity) ∷ rest) =
    validate_i64_quantity name quantity >> validate_quantities rest

-- The floors and the orders at the head of `validate_worker_settings`
unfoldable pub validate_retention :
    Duration → WorkerSettings → Duration → Result (Unit {0}) SettingsError
validate_retention idempotency_ttl worker provider_request_timeout = do
  fail_if (ltb idempotency_ttl 86400000000000) (invalid "COMMIT_IDEMPOTENCY_TTL_SECONDS")
  fail_if (ltb worker.todo_tombstone_retention idempotency_ttl)
      (invalid "COMMIT_IDEMPOTENCY_TTL_SECONDS")
  fail_if (ltb worker.delivered_outbox_retention 2592000000000000)
      (invalid "COMMIT_DELIVERED_OUTBOX_RETENTION_SECONDS")
  fail_if (ltb worker.dead_letter_outbox_retention 7776000000000000)
      (invalid "COMMIT_DEAD_LETTER_OUTBOX_RETENTION_SECONDS")
  fail_if (leb worker.lease_duration provider_request_timeout)
      (invalid "COMMIT_WORKER_LEASE_SECONDS")

unfoldable pub validate_worker_settings :
    Duration → WorkerSettings → Duration → Result (Unit {0}) SettingsError
unfolding validate_retention
validate_worker_settings idempotency_ttl worker provider_request_timeout = do
  validate_retention idempotency_ttl worker provider_request_timeout
  validate_quantities (
      ("COMMIT_IDEMPOTENCY_TTL_SECONDS", as_millis idempotency_ttl)
      ∷ ("COMMIT_WORKER_LEASE_SECONDS", as_secs worker.lease_duration)
      ∷ ("COMMIT_WORKER_MAX_RETRY_SECONDS", as_millis worker.max_retry_delay)
      ∷ ("COMMIT_TODO_TOMBSTONE_RETENTION_SECONDS", as_secs worker.todo_tombstone_retention)
      ∷ ("COMMIT_AUDIT_RETENTION_SECONDS", as_secs worker.audit_retention)
      ∷ ("COMMIT_DELIVERED_OUTBOX_RETENTION_SECONDS", as_secs worker.delivered_outbox_retention)
      ∷ ("COMMIT_DEAD_LETTER_OUTBOX_RETENTION_SECONDS", as_secs worker.dead_letter_outbox_retention)
      ∷ [])
  fail_if (ltb 10000 worker.batch_size) (invalid "COMMIT_WORKER_BATCH_SIZE")
  fail_if (ltb 10000 worker.maintenance_batch_size) (invalid "COMMIT_MAINTENANCE_BATCH_SIZE")
  fail_if (ltb 256 worker.delivery_concurrency) (invalid "COMMIT_WORKER_DELIVERY_CONCURRENCY")
