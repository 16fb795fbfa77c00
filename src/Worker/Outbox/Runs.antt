-- ===== src/Worker/Outbox/Runs.antt =====
-- The life of one event: the statements of any number of workers in any order.
use silicon_commit.Base.{
  ℕ, ◌+◌, ◌≤◌, ◌≡◌, refl, subst, ◌∙◌, sym, ◌⊎◌, inl, inr, Bool, true, false, not, ◌||◌, arith,
  Bool-cases, list_eq, option_eq, nat_eq,
}
use silicon_commit.Text.{Text}
use silicon_commit.Config.{WorkerSettings}
use silicon_commit.Domain.Todo.{Time}
use silicon_commit.Worker.Outbox.{
  delivered, dead_letter, OutboxEvent, ClaimedEvent, WebhookPublishError, recoverable, recover,
  claimable, claim, holds_lease, mark_delivered, mark_failed, bury, postpone, is_retryable,
  is_exhausted, outbox_status_eq, outbox_status_beq,
}
use silicon_commit.Worker.Outbox.Invariant.{
  IsConsistent, IsOutboxPolicy, recover-IsConsistent, claim-IsConsistent,
  mark_delivered-IsConsistent, mark_failed-IsConsistent,
}

-- One statement of a worker on the event, or a statement that passes over it.
pub data Step (w : WorkerSettings) (e : OutboxEvent) : OutboxEvent → Type 0 where
  recovering : (tx clock : Time) → recoverable w tx e ≡ true → Step w e (recover w clock e)
  claiming :
      (worker : Text) (tx clock : Time) (unlinked : Bool)
      → claimable w tx unlinked e ≡ true
      → Step w e (claim w worker clock e)
  delivering :
      (worker : Text) (c : ClaimedEvent) (clock : Time)
      → Step w e (mark_delivered w worker c clock e)
  failing :
      (worker : Text) (c : ClaimedEvent) (error : WebhookPublishError) (clock : Time)
      → Step w e (mark_failed w worker c error clock e)

-- Any number of steps.
pub data Run (w : WorkerSettings) : OutboxEvent → OutboxEvent → Type 0 where
  stop : (e : OutboxEvent) → Run w e e
  step : (e f g : OutboxEvent) → Step w e f → Run w f g → Run w e g

-- The number of claims in a run.
abbrev is_claim : {w : WorkerSettings} {e f : OutboxEvent} → Step w e f → ℕ
is_claim (claiming worker tx clock unlinked h) = 1
is_claim (recovering tx clock h) = 0
is_claim (delivering worker c clock) = 0
is_claim (failing worker c error clock) = 0

abbrev pub claims : {w : WorkerSettings} {e g : OutboxEvent} → Run w e g → ℕ
claims (stop e) = 0
claims (step e f g s r) = is_claim s + claims r

Step-IsConsistent :
    (w : WorkerSettings)
    → IsOutboxPolicy w
    → (e f : OutboxEvent) → Step w e f
    → IsConsistent w e
    → IsConsistent w f
Step-IsConsistent w policy e _ (recovering tx clock h) k =
    recover-IsConsistent w policy tx clock e h k
Step-IsConsistent w policy e _ (claiming worker tx clock unlinked h) k =
    claim-IsConsistent w policy worker tx clock unlinked e h k
Step-IsConsistent w policy e _ (delivering worker c clock) k =
    mark_delivered-IsConsistent w policy worker c clock e k
Step-IsConsistent w policy e _ (failing worker c error clock) k =
    mark_failed-IsConsistent w policy worker c error clock e k

-- From an event that satisfies the constraints of the table, with at most the allowed attempts,
-- every sequence of statements of any workers, under settings that are a policy for the outbox,
-- ends in such an event: each status fills its columns, times are ordered, evidence is kept 30 or
-- 90 days, and attempts stay within the maximum.
pub run-IsConsistent :
    (w : WorkerSettings)
    → IsOutboxPolicy w
    → (e g : OutboxEvent) → Run w e g
    → IsConsistent w e
    → IsConsistent w g
run-IsConsistent w policy e _ (stop _) k = k
run-IsConsistent w policy e g (step _ f _ s r) k =
    run-IsConsistent w policy f g r (Step-IsConsistent w policy e f s k)

delivered-attempts :
    (w : WorkerSettings) (worker : Text) (c : ClaimedEvent) (clock : Time) (e : OutboxEvent)
    → (mark_delivered w worker c clock e).attempt_count ≡ e.attempt_count
unfolding mark_delivered
delivered-attempts w worker c clock e = elim (Bool-cases (holds_lease worker c e)) [
  | inl held ↦ rw held refl
  | inr lost ↦ rw lost refl
]

failed-attempts :
    (w : WorkerSettings) (worker : Text) (c : ClaimedEvent) (error : WebhookPublishError)
    (clock : Time) (e : OutboxEvent)
    → (mark_failed w worker c error clock e).attempt_count ≡ e.attempt_count
unfolding mark_failed bury postpone
failed-attempts w worker c error clock e = elim (Bool-cases (holds_lease worker c e)) [
  | inl held ↦ elim (Bool-cases (not (is_retryable error) || is_exhausted w c.attempt_count)) [
    | inl over ↦ rw (held, over) refl
    | inr again ↦ rw (held, again) refl
  ]
  | inr lost ↦ rw lost refl
]

Step-attempts :
    (w : WorkerSettings) (e f : OutboxEvent) (s : Step w e f)
    → f.attempt_count ≡ is_claim s + e.attempt_count
unfolding recover claim
Step-attempts w e _ (recovering tx clock h) = omega arith
Step-attempts w e _ (claiming worker tx clock unlinked h) = omega arith
Step-attempts w e _ (delivering worker c clock) =
    omega (arith, delivered-attempts w worker c clock e)
Step-attempts w e _ (failing worker c error clock) =
    omega (arith, failed-attempts w worker c error clock e)

run-attempts :
    (w : WorkerSettings) (e g : OutboxEvent) (r : Run w e g)
    → g.attempt_count ≡ claims r + e.attempt_count
run-attempts w e _ (stop _) = omega arith
run-attempts w e g (step _ f _ s r) = omega (arith, Step-attempts w e f s, run-attempts w f g r)

-- In every run from a consistent event, under settings that are a policy for the outbox, the claims
-- and the attempts that the event already had are together at most the maximum of attempts.
pub claims_le_max_attempts :
    (w : WorkerSettings)
    → IsOutboxPolicy w
    → (e g : OutboxEvent) (r : Run w e g) → IsConsistent w e
    → claims r + e.attempt_count ≤ w.max_attempts
claims_le_max_attempts w policy e g r k =
    let b = (run-IsConsistent w policy e g r k).bounded in omega (arith, run-attempts w e g r, b)

-- A delivered or dead-lettered event.
abbrev pub Terminal : OutboxEvent → Type 0
Terminal e = (e.status ≡ delivered) ⊎ (e.status ≡ dead_letter)

not_held :
    (worker : Text) (c : ClaimedEvent) (e : OutboxEvent)
    → Terminal e
    → holds_lease worker c e ≡ false
unfolding holds_lease outbox_status_beq
not_held worker c e (inl t) = rw t (ground arith)
not_held worker c e (inr t) = rw t (ground arith)

not_recoverable :
    (w : WorkerSettings) (tx : Time) (e : OutboxEvent) → Terminal e → recoverable w tx e ≡ false
unfolding recoverable outbox_status_beq
not_recoverable w tx e (inl t) = rw t (ground arith)
not_recoverable w tx e (inr t) = rw t (ground arith)

not_claimable :
    (w : WorkerSettings) (tx : Time) (unlinked : Bool) (e : OutboxEvent)
    → Terminal e
    → claimable w tx unlinked e ≡ false
unfolding claimable outbox_status_beq
not_claimable w tx unlinked e (inl t) = rw t (ground arith)
not_claimable w tx unlinked e (inr t) = rw t (ground arith)

Terminal-Step : (w : WorkerSettings) (e f : OutboxEvent) → Step w e f → Terminal e → f ≡ e
unfolding mark_delivered mark_failed
Terminal-Step w e _ (recovering tx clock h) t = absurd (cc (h, not_recoverable w tx e t))
Terminal-Step w e _ (claiming worker tx clock unlinked h) t =
    absurd (cc (h, not_claimable w tx unlinked e t))
Terminal-Step w e _ (delivering worker c clock) t = rw (not_held worker c e t) refl
Terminal-Step w e _ (failing worker c error clock) t = rw (not_held worker c e t) refl

-- A delivered or dead-lettered event is never changed again: every run of statements from it ends
-- in the same event.
pub run-Terminal : (w : WorkerSettings) (e g : OutboxEvent) → Run w e g → Terminal e → g ≡ e
run-Terminal w e _ (stop _) t = refl
run-Terminal w e g (step _ f _ s r) t =
    let same = Terminal-Step w e f s t in run-Terminal w f g r (subst Terminal (sym same) t) ∙ same
