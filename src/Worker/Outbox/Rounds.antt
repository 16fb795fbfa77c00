-- ===== src/Worker/Outbox/Rounds.antt =====
-- Rounds of polling that each end in a failed delivery (src/worker/outbox.rs).
use silicon_commit.Base.{
  ℕ, Bool, ap, ◌∙◌, ◌&&◌, ◌+◌, ◌≤◌, ◌<◌, ◌≡◌, refl, subst, sym, ◌⊎◌, inl, inr, true, false, not,
  List, [], ◌∷◌, some, if◌then◌else◌, ◌||◌, arith, Bool-cases, list_eq, option_eq, nat_eq, pos, leb,
  beq_refl,
}
use silicon_commit.Text.{Text}
use silicon_commit.Config.{WorkerSettings}
use silicon_commit.Domain.Todo.{Time}
use silicon_commit.Worker.Outbox.{
  pending, dead_letter, OutboxEvent, ClaimedEvent, WebhookPublishError, claimable, claim,
  holds_lease, mark_failed, bury, postpone, is_retryable, outbox_status_eq, outbox_status_beq,
}

-- One round of polling: its time, whether the event stands within the limit of the batch, whether
-- the account of its recipient is unlinked then, the times of the claim and of the report, and the
-- failure of the delivery.
pub record Round : Type 0 where
  pub tx : Time
  pub selected : Bool
  pub unlinked : Bool
  pub claimed_at : Time
  pub reported_at : Time
  pub error : WebhookPublishError

module _ (w : WorkerSettings) (worker : Text) where
  -- A poll that claims the event if it can, and the failure of its delivery.
  abbrev pub failing_round : Round → OutboxEvent → OutboxEvent
  failing_round r e =
      if r.selected && claimable w r.tx r.unlinked e
      then mark_failed w worker
          (record { event_id = e.id; attempt_count = pos (e.attempt_count + 1) }) r.error
          r.reported_at (claim w worker r.claimed_at e)
      else e

  abbrev pub failing_rounds : List Round → OutboxEvent → OutboxEvent
  failing_rounds [] e = e
  failing_rounds (r ∷ rs) e = failing_rounds rs (failing_round r e)

  -- The round may claim the event as far as its time, its place and its recipient go.
  abbrev pub is_chance : Round → OutboxEvent → Bool
  is_chance r e = r.selected && not r.unlinked && leb e.available_at r.tx

  -- How many of the rounds are such
  abbrev pub chances : List Round → OutboxEvent → ℕ
  chances [] e = 0
  chances (r ∷ rs) e = (if is_chance r e then 1 else 0) + chances rs (failing_round r e)

  held :
      (c : ClaimedEvent) (clock : Time) (e : OutboxEvent)
      → c.event_id ≡ e.id
      → holds_lease worker c (claim w worker clock e) ≡ true
  unfolding holds_lease claim outbox_status_beq
  held c clock e h = rw (h, beq_refl e.id, beq_refl (some worker)) refl

  claimed_round :
      (r : Round) (e : OutboxEvent)
      → e.status ≡ pending
      → e.attempt_count < w.max_attempts
      → (r.selected && claimable w r.tx r.unlinked e) ≡ is_chance r e
  unfolding claimable outbox_status_beq
  claimed_round r e s a = rw s (ground arith)

  -- A round without a chance leaves the event.
  idle_round :
      (r : Round) (e : OutboxEvent)
      → e.status ≡ pending
      → e.attempt_count < w.max_attempts
      → is_chance r e ≡ false
      → failing_round r e ≡ e
  idle_round r e s a b = rw (claimed_round r e s a ∙ b) refl

  failed_round :
      (r : Round) (e : OutboxEvent)
      → e.status ≡ pending
      → e.attempt_count < w.max_attempts
      → is_chance r e ≡ true
      → failing_round r e
        ≡ mark_failed w worker
            (record { event_id = e.id; attempt_count = pos (e.attempt_count + 1) })
            r.error
            r.reported_at
            (claim w worker r.claimed_at e)
  failed_round r e s a b = rw (claimed_round r e s a ∙ b) refl

  after_failure :
      (r : Round) (e : OutboxEvent)
      → e.status ≡ pending
      → e.attempt_count < w.max_attempts
      → is_chance r e ≡ true
      → ((failing_round r e).status ≡ dead_letter)
        ⊎ (((failing_round r e).status ≡ pending)
            × ((failing_round r e).attempt_count ≡ e.attempt_count + 1)
            × (e.attempt_count + 1 < w.max_attempts))
  unfolding mark_failed claim bury postpone
  after_failure r e s a b =
      let c : ClaimedEvent = record {
        event_id = e.id;
        attempt_count = pos (e.attempt_count + 1);
      } in
      let h = held c r.claimed_at e refl in
      rw (failed_round r e s a b)
        (elim (Bool-cases
          (not (is_retryable r.error) || leb w.max_attempts (e.attempt_count + 1))) [
            | inl over ↦ inl (rw (h, over) refl)
            | inr again ↦ inr (rw (h, again) (refl, refl, ground arith))
          ])

  dead_round : (r : Round) (e : OutboxEvent) → e.status ≡ dead_letter → failing_round r e ≡ e
  unfolding claimable outbox_status_beq
  dead_round r e s = rw s (ground arith)

  dead_rounds :
      (rs : List Round) (e : OutboxEvent)
      → e.status ≡ dead_letter
      → (failing_rounds rs e).status ≡ dead_letter
  dead_rounds [] e s = s
  dead_rounds (r ∷ rs) e s =
      subst (λ f. (failing_rounds rs f).status ≡ dead_letter) (sym (dead_round r e s))
        (dead_rounds rs e s)

  -- Of any rounds of polling in which every claimed delivery of a pending event with attempts left
  -- fails and is reported by the worker that claimed it, the event is a dead letter in the end, if
  -- at least as many rounds as it has attempts left are a chance: the event is due then, within the
  -- limit of the batch, and the account of its recipient is not unlinked. Other rounds may stand
  -- between them.
  pub failing_rounds-dead_letter :
      (rs : List Round) (e : OutboxEvent)
      → e.status ≡ pending
      → e.attempt_count < w.max_attempts
      → w.max_attempts ≤ e.attempt_count + chances rs e
      → (failing_rounds rs e).status ≡ dead_letter
  failing_rounds-dead_letter [] e s a n = absurd (omega arith)
  failing_rounds-dead_letter (r ∷ rs) e s a n = elim (Bool-cases (is_chance r e)) [
    | inl b ↦ elim (after_failure r e s a b) [
      | inl dead ↦ dead_rounds rs (failing_round r e) dead
      | inr (again, count, room) ↦
          failing_rounds-dead_letter rs (failing_round r e) again (omega (arith, count, room))
            (one_less b count)
    ]
    | inr b ↦
        let same = idle_round r e s a b in
        subst (λ f. (failing_rounds rs f).status ≡ dead_letter) (sym same)
          (failing_rounds-dead_letter rs e s a (none_less b same))
  ]
    where
      one_less :
          is_chance r e ≡ true
          → (failing_round r e).attempt_count ≡ e.attempt_count + 1
          → w.max_attempts ≤ (failing_round r e).attempt_count + chances rs (failing_round r e)
      one_less b count =
          let k : ◌≡◌ {A = ℕ} (if is_chance r e then 1 else 0) 1 = ap (λ x. if x then 1 else 0) b in
          omega (arith, n, k, count)

      none_less :
          is_chance r e ≡ false
          → failing_round r e ≡ e
          → w.max_attempts ≤ e.attempt_count + chances rs e
      none_less b same =
          let k : ◌≡◌ {A = ℕ} (if is_chance r e then 1 else 0) 0 = ap (λ x. if x then 1 else 0) b in
          let f : chances rs (failing_round r e) ≡ chances rs e = ap (chances rs) same in
          omega (arith, n, k, f)
