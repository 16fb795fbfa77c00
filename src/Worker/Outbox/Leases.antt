-- ===== src/Worker/Outbox/Leases.antt =====
-- A lease is exclusive: the report of a worker that lost it has no effect.
use silicon_commit.Base.{
  ◌≡◌, ◌≢◌, refl, false, some, arith, list_eq, option_eq, nat_eq, list_beq_iff, option_beq,
}
use silicon_commit.Text.{Text}
use silicon_commit.Config.{WorkerSettings}
use silicon_commit.Domain.Todo.{Time}
use silicon_commit.Worker.Outbox.{
  in_flight, OutboxEvent, ClaimedEvent, WebhookPublishError, claim, recover, holds_lease,
  mark_delivered, mark_failed, outbox_status_eq, outbox_status_beq,
}

other_owner : (a b : Text) → a ≢ b → option_beq (some b) (some a) ≡ false
unfolding option_beq
other_owner a b h = ground (arith, list_beq_iff b a)

not_owner :
    (w : WorkerSettings) (a b : Text) (c : ClaimedEvent) (clock : Time) (e : OutboxEvent)
    → a ≢ b
    → holds_lease a c (claim w b clock e) ≡ false
unfolding holds_lease claim
not_owner w a b c clock e h = rw (other_owner a b h) (ground arith)

-- After a worker has claimed an event, the report of a worker with another identifier on it, of a
-- delivery or of a failure, changes nothing.
pub claim-exclusive :
    (w : WorkerSettings) (a b : Text) (c : ClaimedEvent) (error : WebhookPublishError)
    (claimed_at reported_at : Time) (e : OutboxEvent)
    → a ≢ b
    → (mark_delivered w a c reported_at (claim w b claimed_at e) ≡ claim w b claimed_at e)
      × (mark_failed w a c error reported_at (claim w b claimed_at e) ≡ claim w b claimed_at e)
unfolding mark_delivered mark_failed
claim-exclusive w a b c error claimed_at reported_at e h =
    let lost = not_owner w a b c claimed_at e h in (rw lost refl, rw lost refl)

not_in_flight :
    (a : Text) (c : ClaimedEvent) (e : OutboxEvent)
    → outbox_status_beq e.status in_flight ≡ false
    → holds_lease a c e ≡ false
unfolding holds_lease
not_in_flight a c e h = rw h (ground arith)

recovered_status :
    (w : WorkerSettings) (clock : Time) (e : OutboxEvent)
    → outbox_status_beq (recover w clock e).status in_flight ≡ false
unfolding recover outbox_status_beq
recovered_status w clock e = ground arith

-- After the recovery of an event, a late report of any worker, of a delivery or of a failure,
-- changes nothing.
pub recover-late_report :
    (w : WorkerSettings) (a : Text) (c : ClaimedEvent) (error : WebhookPublishError)
    (recovered_at reported_at : Time) (e : OutboxEvent)
    → (mark_delivered w a c reported_at (recover w recovered_at e) ≡ recover w recovered_at e)
      × (mark_failed w a c error reported_at (recover w recovered_at e) ≡ recover w recovered_at e)
unfolding mark_delivered mark_failed
recover-late_report w a c error recovered_at reported_at e =
    let lost : holds_lease a c (recover w recovered_at e) ≡ false =
      not_in_flight a c (recover w recovered_at e) (recovered_status w recovered_at e) in
    (rw lost refl, rw lost refl)
