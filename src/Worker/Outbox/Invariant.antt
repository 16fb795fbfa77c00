-- ===== src/Worker/Outbox/Invariant.antt =====
-- The constraints of the table `commit.outbox_events` hold after every statement of the worker.
use silicon_commit.Base.{
  ◌+◌, ◌*◌, ◌≤◌, ◌<◌, ◌≡◌, refl, subst, ◌⊎◌, inl, inr, Bool, true, not, none, some, leb, ◌==◌, ◌||◌,
  arith, Bool-cases, list_eq, option_eq, nat_eq,
}
use silicon_commit.Text.{Text}
use silicon_commit.Config.{second, WorkerSettings}
use silicon_commit.Domain.Todo.{Time}
use silicon_commit.Worker.Outbox.{
  OutboxStatus, pending, in_flight, delivered, dead_letter, OutboxEvent, ClaimedEvent,
  WebhookPublishError, recoverable, recover, claimable, claim, holds_lease, mark_delivered,
  mark_failed, bury, postpone, interval_seconds, is_retryable, is_exhausted, outbox_status_beq_iff,
  outbox_status_eq,
}

-- The columns that each status fills: the constraint `outbox_events_state_consistency`.
abbrev pub Filled : OutboxStatus → OutboxEvent → Type 0
Filled pending e =
    (e.lease_owner ≡ none)
    × (e.lease_expires_at ≡ none)
    × (e.delivered_at ≡ none)
    × (e.dead_lettered_at ≡ none)
    × (e.purge_after ≡ none)
Filled in_flight e =
    ((o : Text) × (e.lease_owner ≡ some o))
    × ((t : Time) × (e.lease_expires_at ≡ some t) × (e.created_at < t))
    × (e.delivered_at ≡ none)
    × (e.dead_lettered_at ≡ none)
    × (e.purge_after ≡ none)
    × (1 ≤ e.attempt_count)
Filled delivered e =
    (e.lease_owner ≡ none)
    × (e.lease_expires_at ≡ none)
    × ((t p : Time) × (e.delivered_at ≡ some t)
        × (e.purge_after ≡ some p)
        × (e.created_at ≤ t)
        × (t + 2592000 * second ≤ p))
    × (e.dead_lettered_at ≡ none)
Filled dead_letter e =
    (e.lease_owner ≡ none)
    × (e.lease_expires_at ≡ none)
    × (e.delivered_at ≡ none)
    × ((t p : Time) × (e.dead_lettered_at ≡ some t)
        × (e.purge_after ≡ some p)
        × (e.created_at ≤ t)
        × (t + 7776000 * second ≤ p))

-- The constraints on a row, and the bound on its attempts.
pub record IsConsistent (w : WorkerSettings) (e : OutboxEvent) : Type 0 where
  pub filled : Filled e.status e
  pub updated : e.created_at ≤ e.updated_at
  pub available : e.created_at ≤ e.available_at
  pub bounded : e.attempt_count ≤ w.max_attempts

-- A policy under which the statements respect the constraints.
pub record IsOutboxPolicy (w : WorkerSettings) : Type 0 where
  pub delivered : 2592000 ≤ interval_seconds w.delivered_outbox_retention
  pub dead_letter : 7776000 ≤ interval_seconds w.dead_letter_outbox_retention
  pub lease : 1 ≤ interval_seconds w.lease_duration

module _ (w : WorkerSettings) (policy : IsOutboxPolicy w) where
  recoverable-status :
      (tx : Time) (e : OutboxEvent)
      → recoverable w tx e ≡ true
      → (e.status ≡ in_flight) ⊎ (e.status ≡ pending)
  unfolding recoverable
  recoverable-status tx e h = elim (Bool-cases (e.status == in_flight)) [
    | inl a ↦ inl ((outbox_status_beq_iff e.status in_flight).0 a)
    | inr b ↦ inr ((outbox_status_beq_iff e.status pending).0 (ground arith))
  ]

  no_delivery :
      (e : OutboxEvent)
      → Filled e.status e
      → (e.status ≡ in_flight) ⊎ (e.status ≡ pending)
      → e.delivered_at ≡ none
  no_delivery e f (inl s) = let g = subst (λ s. Filled s e) s f in g.2
  no_delivery e f (inr s) = let g = subst (λ s. Filled s e) s f in g.2

  -- Recovery of an expired lease or of an exhausted event
  pub recover-IsConsistent :
      (tx clock : Time) (e : OutboxEvent)
      → recoverable w tx e ≡ true
      → IsConsistent w e
      → IsConsistent w (recover w clock e)
  unfolding recover
  recover-IsConsistent tx clock e h k =
      let fresh = no_delivery e k.filled (recoverable-status tx e h) in
      record {
        filled = elim (Bool-cases (leb w.max_attempts e.attempt_count)) [
          | inl over ↦ rw over (
            refl,
            refl,
            fresh,
            (_, _, refl, refl, omega (arith, k.updated), omega (arith, policy.dead_letter)),
          )
          | inr left_over ↦ rw left_over (refl, refl, fresh, refl, refl)
        ];
        updated = omega (arith, k.updated);
        available = omega (arith, k.available);
        bounded = k.bounded;
      }

  pub claim-IsConsistent :
      (worker : Text) (tx clock : Time) (unlinked : Bool) (e : OutboxEvent)
      → claimable w tx unlinked e ≡ true
      → IsConsistent w e
      → IsConsistent w (claim w worker clock e)
  unfolding claim claimable
  claim-IsConsistent worker tx clock unlinked e h k =
      let is_pending : e.status ≡ pending =
        (outbox_status_beq_iff e.status pending).0 (ground arith) in
      let (_, _, d, l, p) = subst (λ s. Filled s e) is_pending k.filled in
      let room : e.attempt_count < w.max_attempts = ground arith in
      record {
        filled = (
          (worker, refl),
          (_, refl, omega (arith, k.updated, policy.lease)),
          d,
          l,
          p,
          omega arith,
        );
        updated = omega (arith, k.updated);
        available = k.available;
        bounded = omega (arith, room);
      }

  -- The worker that holds the lease of an event finds it in flight.
  holds_lease-status :
      (worker : Text) (c : ClaimedEvent) (e : OutboxEvent)
      → holds_lease worker c e ≡ true
      → e.status ≡ in_flight
  unfolding holds_lease
  holds_lease-status worker c e h = (outbox_status_beq_iff e.status in_flight).0 (ground arith)

  pub mark_delivered-IsConsistent :
      (worker : Text) (c : ClaimedEvent) (clock : Time) (e : OutboxEvent)
      → IsConsistent w e
      → IsConsistent w (mark_delivered w worker c clock e)
  unfolding mark_delivered
  mark_delivered-IsConsistent worker c clock e k = elim (Bool-cases (holds_lease worker c e)) [
    | inl held ↦
        let (_, _, _, fresh, _, _) =
          subst (λ s. Filled s e) (holds_lease-status worker c e held) k.filled in
        rw held (record {
          filled = (
            refl,
            refl,
            (_, _, refl, refl, omega (arith, k.updated), omega (arith, policy.delivered)),
            fresh,
          );
          updated = omega (arith, k.updated);
          available = k.available;
          bounded = k.bounded;
        })
    | inr lost ↦ rw lost k
  ]

  bury-IsConsistent :
      (error : WebhookPublishError) (clock : Time) (e : OutboxEvent)
      → e.status ≡ in_flight
      → IsConsistent w e
      → IsConsistent w (bury w error clock e)
  unfolding bury
  bury-IsConsistent error clock e s k =
      let (_, _, fresh, _, _, _) = subst (λ s. Filled s e) s k.filled in
      record {
        filled = (
          refl,
          refl,
          fresh,
          (_, _, refl, refl, omega (arith, k.updated), omega (arith, policy.dead_letter)),
        );
        updated = omega (arith, k.updated);
        available = k.available;
        bounded = k.bounded;
      }

  postpone-IsConsistent :
      (c : ClaimedEvent) (error : WebhookPublishError) (clock : Time) (e : OutboxEvent)
      → e.status ≡ in_flight
      → IsConsistent w e
      → IsConsistent w (postpone w c error clock e)
  unfolding postpone
  postpone-IsConsistent c error clock e s k =
      let (_, _, fresh, dead, _, _) = subst (λ s. Filled s e) s k.filled in
      record {
        filled = (refl, refl, fresh, dead, refl);
        updated = omega (arith, k.updated);
        available = omega (arith, k.available);
        bounded = k.bounded;
      }

  pub mark_failed-IsConsistent :
      (worker : Text) (c : ClaimedEvent) (error : WebhookPublishError) (clock : Time)
      (e : OutboxEvent)
      → IsConsistent w e
      → IsConsistent w (mark_failed w worker c error clock e)
  unfolding mark_failed
  mark_failed-IsConsistent worker c error clock e k = elim (Bool-cases (holds_lease worker c e)) [
    | inl held ↦
        let s = holds_lease-status worker c e held in
        elim (Bool-cases (not (is_retryable error) || is_exhausted w c.attempt_count)) [
          | inl over ↦ rw (held, over) (bury-IsConsistent error clock e s k)
          | inr again ↦ rw (held, again) (postpone-IsConsistent c error clock e s k)
        ]
    | inr lost ↦ rw lost k
  ]
