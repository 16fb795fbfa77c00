-- ===== src/Worker/Outbox.antt =====
-- src/worker/outbox.rs: one row of `commit.outbox_events` under each statement of the worker, with the
-- trigger that sets `updated_at`. `tx` is `transaction_timestamp()`, `clock` is `clock_timestamp()`;
-- `make_interval` adds exact seconds.
pub mod Retry
pub mod Invariant
pub mod Runs
pub mod Leases
pub mod Rounds
pub mod Policy
use silicon_commit.Base.{
  ℕ, zero, suc, ◌+◌, ◌*◌, ◌%◌, ◌^◌, min, max, ◌≤◌, ◌≡◌, Bool, true, false, not, ◌&&◌, ◌||◌, List,
  Option, none, some, String, if◌then◌else◌, ltb, leb, ◌==◌, Eq, option_eq, list_eq, nat_eq, ℤ, pos,
  negsuc, arith, ◌↔◌,
}
use Prim.Native.Nat.{bit_xor}
use silicon_commit.Text.{Text}
use silicon_commit.Config.{Duration, second, as_secs, as_millis, WorkerSettings}
use silicon_commit.Domain.Ids.{Uuid}
use silicon_commit.Domain.Todo.{Time}
use silicon_commit.Domain.Notification.Version.{i64_max}

pub data OutboxStatus : Type 0 where
  pending in_flight delivered dead_letter : OutboxStatus

unfoldable pub outbox_status_beq : OutboxStatus → OutboxStatus → Bool
outbox_status_beq pending pending = true
outbox_status_beq in_flight in_flight = true
outbox_status_beq delivered delivered = true
outbox_status_beq dead_letter dead_letter = true
outbox_status_beq _ _ = false

pub outbox_status_beq_iff : (a b : OutboxStatus) → (outbox_status_beq a b ≡ true) ↔ (a ≡ b)
unfolding outbox_status_beq
outbox_status_beq_iff pending pending = ground arith
outbox_status_beq_iff in_flight in_flight = ground arith
outbox_status_beq_iff delivered delivered = ground arith
outbox_status_beq_iff _ _ = ground arith

instance abbrev pub outbox_status_eq : Eq OutboxStatus
outbox_status_eq = record { same = outbox_status_beq; same_iff = outbox_status_beq_iff }

-- The columns that delivery reads and writes
pub record OutboxEvent : Type 0 where
  pub id : Uuid
  pub status : OutboxStatus
  pub attempt_count : ℕ
  pub lease_owner : Option Text
  pub lease_expires_at : Option Time
  pub last_error_code : Option String
  pub created_at : Time
  pub available_at : Time
  pub updated_at : Time
  pub delivered_at : Option Time
  pub dead_lettered_at : Option Time
  pub purge_after : Option Time

pub data WebhookPublishError : Type 0 where
  unavailable : WebhookPublishError
  rate_limited : (retry_after : Option Duration) → WebhookPublishError
  invalid_response rejected : WebhookPublishError

-- `WebhookPublishError::is_retryable`
unfoldable pub is_retryable : WebhookPublishError → Bool
is_retryable rejected = false
is_retryable _ = true

-- `WebhookPublishError::code`
unfoldable pub error_code : WebhookPublishError → String
error_code unavailable = "webwebhook_unavailable"
error_code (rate_limited retry_after) = "webwebhook_rate_limited"
error_code invalid_response = "webwebhook_invalid_response"
error_code rejected = "webwebhook_event_rejected"

-- `i64::try_from(duration.as_secs()).unwrap_or(i64::MAX)`
abbrev pub interval_seconds : Duration → ℕ
interval_seconds d = min (as_secs d) i64_max

-- `lease_expires_at <= now`, false for null
abbrev pub expired : Option Time → Time → Bool
expired none now = false
expired (some at) now = leb at now

-- The `WHERE` of `recover_expired_or_exhausted`
unfoldable pub recoverable : WorkerSettings → Time → OutboxEvent → Bool
recoverable w tx e =
    (e.status == in_flight && expired e.lease_expires_at tx)
    || (e.status == pending && leb w.max_attempts e.attempt_count)

-- The `SET` of `recover_expired_or_exhausted`
unfoldable pub recover : WorkerSettings → Time → OutboxEvent → OutboxEvent
recover w clock e =
    let exhausted = leb w.max_attempts e.attempt_count in
    record {
      id = e.id;
      status = if exhausted then dead_letter else pending;
      attempt_count = e.attempt_count;
      lease_owner = none;
      lease_expires_at = none;
      last_error_code = if exhausted then some "delivery_attempts_exhausted" else e.last_error_code;
      created_at = e.created_at;
      available_at = max e.available_at (max e.updated_at clock);
      updated_at = max e.updated_at clock;
      delivered_at = e.delivered_at;
      dead_lettered_at = if exhausted then some (max e.updated_at clock) else none;
      purge_after =
          if exhausted
          then some
              (max e.updated_at clock + interval_seconds w.dead_letter_outbox_retention * second)
          else none;
    }

-- The `WHERE` of `claim`; `unlinked` says that the recipient's account is
unfoldable pub claimable : WorkerSettings → Time → Bool → OutboxEvent → Bool
claimable w tx unlinked e =
    e.status == pending
    && not unlinked
    && leb e.available_at tx
    && ltb e.attempt_count w.max_attempts

-- The `SET` of `claim`
unfoldable pub claim : WorkerSettings → Text → Time → OutboxEvent → OutboxEvent
claim w worker_id clock e = record {
  id = e.id;
  status = in_flight;
  attempt_count = e.attempt_count + 1;
  lease_owner = some worker_id;
  lease_expires_at =
      some
        (max e.updated_at (max e.available_at clock) + interval_seconds w.lease_duration * second);
  last_error_code = e.last_error_code;
  created_at = e.created_at;
  available_at = e.available_at;
  updated_at = max e.updated_at clock;
  delivered_at = e.delivered_at;
  dead_lettered_at = e.dead_lettered_at;
  purge_after = e.purge_after;
}

-- The event and the attempt that a worker holds in memory
pub record ClaimedEvent : Type 0 where
  pub event_id : Uuid
  pub attempt_count : ℤ

-- `WHERE id = $1 AND status = 'in_flight' AND lease_owner = $2`
unfoldable pub holds_lease : Text → ClaimedEvent → OutboxEvent → Bool
holds_lease worker_id c e =
    e.id == c.event_id && e.status == in_flight && e.lease_owner == some worker_id

unfoldable pub mark_delivered :
    WorkerSettings → Text → ClaimedEvent → Time → OutboxEvent → OutboxEvent
mark_delivered w worker_id c clock e =
    if holds_lease worker_id c e
    then record {
      id = e.id;
      status = delivered;
      attempt_count = e.attempt_count;
      lease_owner = none;
      lease_expires_at = none;
      last_error_code = none;
      created_at = e.created_at;
      available_at = e.available_at;
      updated_at = max e.updated_at clock;
      delivered_at = some (max e.updated_at clock);
      dead_lettered_at = e.dead_lettered_at;
      purge_after =
          some (max e.updated_at clock + interval_seconds w.delivered_outbox_retention * second);
    }
    else e

-- `u32::try_from(attempt.saturating_sub(1)).unwrap_or(31).min(31)` of an `i32`
abbrev pub exponent : ℤ → ℕ
exponent (pos zero) = 31
exponent (pos (suc n)) = min n 31
exponent (negsuc n) = 31

-- `u32::try_from(attempt).unwrap_or_default()`
abbrev pub attempt_bits : ℤ → ℕ
attempt_bits (pos n) = n
attempt_bits (negsuc n) = 0

unfoldable pub retry_delay : Uuid → ℤ → Duration → Duration
retry_delay event_id attempt maximum =
    let cap_seconds = min (2 ^ exponent attempt) (max (as_secs maximum) 1) in
    let mixed = bit_xor event_id (attempt_bits attempt) in
    max (mixed % (cap_seconds + 1)) 1 * second

-- `usize::try_from(attempt_count).map_or(true, |attempt| attempt >= max_attempts)`
abbrev pub is_exhausted : WorkerSettings → ℤ → Bool
is_exhausted w (pos n) = leb w.max_attempts n
is_exhausted w (negsuc n) = true

-- `retry_after` of `mark_failed`
unfoldable pub retry_after_of : WorkerSettings → ClaimedEvent → WebhookPublishError → Duration
retry_after_of w c (rate_limited (some delay)) = min delay w.max_retry_delay
retry_after_of w c _ = retry_delay c.event_id c.attempt_count w.max_retry_delay

-- The statement for an event that is given up
unfoldable pub bury : WorkerSettings → WebhookPublishError → Time → OutboxEvent → OutboxEvent
bury w error clock e = record {
  id = e.id;
  status = dead_letter;
  attempt_count = e.attempt_count;
  lease_owner = none;
  lease_expires_at = none;
  last_error_code = some (error_code error);
  created_at = e.created_at;
  available_at = e.available_at;
  updated_at = max e.updated_at clock;
  delivered_at = e.delivered_at;
  dead_lettered_at = some (max e.updated_at clock);
  purge_after =
      some (max e.updated_at clock + interval_seconds w.dead_letter_outbox_retention * second);
}

-- The statement for an event that is tried again
unfoldable pub postpone :
    WorkerSettings → ClaimedEvent → WebhookPublishError → Time → OutboxEvent → OutboxEvent
postpone w c error clock e = record {
  id = e.id;
  status = pending;
  attempt_count = e.attempt_count;
  lease_owner = none;
  lease_expires_at = none;
  last_error_code = some (error_code error);
  created_at = e.created_at;
  available_at =
      max e.updated_at (max e.available_at clock)
      + min (as_millis (retry_after_of w c error)) i64_max * 1000000;
  updated_at = max e.updated_at clock;
  delivered_at = e.delivered_at;
  dead_lettered_at = e.dead_lettered_at;
  purge_after = none;
}

unfoldable pub mark_failed :
    WorkerSettings → Text → ClaimedEvent → WebhookPublishError → Time → OutboxEvent → OutboxEvent
mark_failed w worker_id c error clock e =
    if holds_lease worker_id c e
    then if not (is_retryable error) || is_exhausted w c.attempt_count
      then bury w error clock e
      else postpone w c error clock e
    else e
