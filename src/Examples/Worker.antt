-- ===== src/Examples/Worker.antt =====
-- The outbox worker on concrete events (src/worker/outbox.rs, src/config.rs).
use silicon_commit.Base.{
  ◌+◌, ◌*◌, ◌≤◌, ◌≡◌, ◌≢◌, refl, inr, true, false, List, [], ◌∷◌, none, some, pos, arith, ne_of_beq,
  list_beq, option_beq, list_eq, nat_eq,
}
use silicon_commit.Text.{Text, chars}
use silicon_commit.Config.{WorkerSettings, second}
use silicon_commit.Worker.Outbox.{
  pending, dead_letter, OutboxEvent, ClaimedEvent, unavailable, rate_limited, rejected, claimable,
  claim, mark_delivered, mark_failed, postpone, is_retryable, retry_after_of, outbox_status_beq,
  holds_lease,
}
use silicon_commit.Worker.Outbox.Invariant.{IsConsistent, IsOutboxPolicy}
use silicon_commit.Worker.Outbox.Runs.{
  Run, stop, step, claiming, delivering, failing, claims, run-IsConsistent, claims_le_max_attempts,
  run-Terminal,
}
use silicon_commit.Worker.Outbox.Leases.{claim-exclusive}
use silicon_commit.Worker.Outbox.Rounds.{Round, failing_rounds, chances, failing_rounds-dead_letter}

abbrev settings : WorkerSettings
settings = record {
  batch_size = 50;
  delivery_concurrency = 8;
  poll_interval = second;
  lease_duration = 60 * second;
  max_attempts = 2;
  max_retry_delay = 30 * second;
  maintenance_interval = 60 * second;
  maintenance_batch_size = 500;
  todo_tombstone_retention = 2592000 * second;
  audit_retention = 2592000 * second;
  delivered_outbox_retention = 2592000 * second;
  dead_letter_outbox_retention = 7776000 * second;
}

policy : IsOutboxPolicy settings
policy = record { delivered = omega arith; dead_letter = omega arith; lease = omega arith }

-- An event that was queued at time 100.
abbrev queued : OutboxEvent
queued = record {
  id = 7;
  status = pending;
  attempt_count = 0;
  lease_owner = none;
  lease_expires_at = none;
  last_error_code = none;
  created_at = 100;
  available_at = 100;
  updated_at = 100;
  delivered_at = none;
  dead_lettered_at = none;
  purge_after = none;
}

queued-IsConsistent : IsConsistent settings queued
queued-IsConsistent = record {
  filled = (refl, refl, refl, refl, refl);
  updated = omega arith;
  available = omega arith;
  bounded = omega arith;
}

abbrev ada : Text
ada = chars "ada"

abbrev bob : Text
bob = chars "bob"

abbrev first_claim : ClaimedEvent
first_claim = record { event_id = 7; attempt_count = pos 1 }

queued-claimable : claimable settings 150 false queued ≡ true
unfolding claimable outbox_status_beq
queued-claimable = refl

-- Ada claims the event and delivers it.
abbrev delivery :
    Run settings queued
      (mark_delivered settings ada first_claim 300 (claim settings ada 200 queued))
delivery =
    step _ _ _ (claiming ada 150 200 false queued-claimable)
      (step _ _ _ (delivering ada first_claim 300) (stop _))

run-IsConsistent_example :
    IsConsistent settings
      (mark_delivered settings ada first_claim 300 (claim settings ada 200 queued))
run-IsConsistent_example =
    run-IsConsistent settings policy queued
      (mark_delivered settings ada first_claim 300 (claim settings ada 200 queued)) delivery
      queued-IsConsistent

claims_le_max_attempts_example : claims delivery + 0 ≤ 2
claims_le_max_attempts_example =
    claims_le_max_attempts settings policy queued
      (mark_delivered settings ada first_claim 300 (claim settings ada 200 queued)) delivery
      queued-IsConsistent

abbrev buried : OutboxEvent
buried = record {
  id = 7;
  status = dead_letter;
  attempt_count = 2;
  lease_owner = none;
  lease_expires_at = none;
  last_error_code = some "delivery_attempts_exhausted";
  created_at = 100;
  available_at = 100;
  updated_at = 100;
  delivered_at = none;
  dead_lettered_at = some 100;
  purge_after = some 7776000000000100;
}

run-Terminal_example : mark_failed settings ada first_claim rejected 300 buried ≡ buried
run-Terminal_example =
    run-Terminal settings buried (mark_failed settings ada first_claim rejected 300 buried)
      (step _ _ _ (failing ada first_claim rejected 300) (stop _)) (inr refl)

ada-bob : ada ≢ bob
unfolding list_beq
ada-bob = ne_of_beq ada bob refl

claim-exclusive_example :
    (mark_delivered settings ada first_claim 300 (claim settings bob 200 queued)
      ≡ claim settings bob 200 queued)
    × (mark_failed settings ada first_claim unavailable 300 (claim settings bob 200 queued)
        ≡ claim settings bob 200 queued)
claim-exclusive_example =
    claim-exclusive settings ada bob first_claim unavailable 200 300 queued ada-bob

-- The account of the recipient is unlinked at the second poll.
abbrev rounds : List Round
rounds =
    record {
      tx = 150;
      selected = true;
      unlinked = false;
      claimed_at = 200;
      reported_at = 300;
      error = rate_limited (some second);
    }
    ∷ record {
      tx = 90000000000;
      selected = true;
      unlinked = true;
      claimed_at = 90000000100;
      reported_at = 90000000200;
      error = unavailable;
    }
    ∷ record {
      tx = 99000000000;
      selected = true;
      unlinked = false;
      claimed_at = 99000000100;
      reported_at = 99000000200;
      error = rejected;
    }
    ∷ []

rounds-chances : chances settings ada rounds queued ≡ 2
unfolding claimable claim mark_failed postpone retry_after_of is_retryable holds_lease
    outbox_status_beq list_beq option_beq
rounds-chances = refl

failing_rounds-dead_letter_example :
    (failing_rounds settings ada rounds queued).status ≡ dead_letter
failing_rounds-dead_letter_example =
    failing_rounds-dead_letter settings ada rounds queued refl (omega arith)
      (omega (arith, rounds-chances))
