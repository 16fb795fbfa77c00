-- ===== src/Worker/Outbox/Retry.antt =====
-- The bounds of the delay before the next attempt.
use silicon_commit.Base.{ℕ, zero, suc, ◌+◌, ◌*◌, ◌^◌, min, max, ◌≤◌, ◌<◌, ℤ, arith, none, some}
use native.Mathlib.Nat.{mod-lt}
use Prim.Native.Nat.{bit_xor}
use silicon_commit.Config.{Duration, second, as_secs, WorkerSettings}
use silicon_commit.Domain.Ids.{Uuid}
use silicon_commit.Worker.Outbox.{
  retry_delay, exponent, attempt_bits, ClaimedEvent, WebhookPublishError, unavailable, rate_limited,
  invalid_response, rejected, retry_after_of,
}

bounds :
    (m p maximum : ℕ)
    → 1 ≤ p
    → m < min p (max (as_secs maximum) 1) + 1
    → (second ≤ max m 1 * second)
      × (max m 1 * second ≤ max maximum second)
      × (max m 1 * second ≤ p * second)
bounds m p maximum h k = (omega arith, omega (arith, h, k), omega (arith, h, k))

one_le_power : (n : ℕ) → 1 ≤ 2 ^ n
one_le_power zero = omega arith
one_le_power (suc n) = omega (arith, one_le_power n)

-- The computed delay is at least a second, at most the larger of the maximum and a second, and at
-- most the power of two that belongs to the attempt, in seconds.
pub retry_delay-bounds :
    (id : Uuid) (attempt : ℤ) (maximum : Duration)
    → (second ≤ retry_delay id attempt maximum)
      × (retry_delay id attempt maximum ≤ max maximum second)
      × (retry_delay id attempt maximum ≤ 2 ^ exponent attempt * second)
unfolding retry_delay
retry_delay-bounds id attempt maximum =
    bounds _ (2 ^ exponent attempt) maximum (one_le_power (exponent attempt))
      (mod-lt (bit_xor id (attempt_bits attempt)) (omega arith))

-- The delay before a retry, asked for by the provider or computed, is at most the configured
-- maximum, if that is a second or more.
pub retry_after_of_le :
    (w : WorkerSettings) (c : ClaimedEvent) (error : WebhookPublishError)
    → second ≤ w.max_retry_delay
    → retry_after_of w c error ≤ w.max_retry_delay
unfolding retry_after_of
retry_after_of_le w c (rate_limited (some delay)) h = omega arith
retry_after_of_le w c (rate_limited none) h =
    omega (arith, (retry_delay-bounds c.event_id c.attempt_count w.max_retry_delay).1)
retry_after_of_le w c unavailable h =
    omega (arith, (retry_delay-bounds c.event_id c.attempt_count w.max_retry_delay).1)
retry_after_of_le w c invalid_response h =
    omega (arith, (retry_delay-bounds c.event_id c.attempt_count w.max_retry_delay).1)
retry_after_of_le w c rejected h =
    omega (arith, (retry_delay-bounds c.event_id c.attempt_count w.max_retry_delay).1)
