-- ===== src/Worker/Retention/Cycle.antt =====
-- What a successful maintenance cycle did.
use silicon_commit.Base.{
  ℕ, min, ◌<◌, ◌+◌, ◌≤◌, ◌≡◌, ◌⊎◌, Bool, true, false, List, [], ◌∷◌, length, Result, ok,
}
use silicon_commit.Worker.Retention.{
  RetentionReport, RetentionRow, RetentionCycleReport, RetentionError, max_passes_per_cycle,
  accumulate, u64_max, run_once,
}

-- The kinds of record that a pass counts
pub data Kind : Type 0 where
  notes attachments activity_changes activity todos idempotency audit delivered_outbox
        dead_letter_outbox :
      Kind

abbrev pub count : Kind → RetentionReport → ℕ
count notes r = r.notes_purged
count attachments r = r.attachments_purged
count activity_changes r = r.activity_changes_redacted
count activity r = r.activity_purged
count todos r = r.todos_redacted
count idempotency r = r.idempotency_purged
count audit r = r.audit_purged
count delivered_outbox r = r.delivered_outbox_purged
count dead_letter_outbox r = r.dead_letter_outbox_purged

-- The records of a kind over all reports
abbrev pub sum : Kind → List RetentionReport → ℕ
sum k [] = 0
sum k (r ∷ rs) = count k r + sum k rs

-- The reports of a cycle added up, from a total on
abbrev total : RetentionReport → List RetentionReport → RetentionReport
total t [] = t
total t (r ∷ rs) = total (accumulate t r) rs

-- Some kind may have more records to remove than a pass took.
abbrev pub IsFull : ℕ → RetentionReport → Type 0
IsFull batch_size r = (k : Kind) × (batch_size ≤ count k r)

abbrev pub IsPartial : ℕ → RetentionReport → Type 0
IsPartial batch_size r = (k : Kind) → count k r < batch_size

module _ {S : Type 0} (pass : ℕ → S → Result (RetentionRow × S) RetentionError)
    (batch_size : ℕ) where
  -- Passes that succeed one after the other.
  abbrev pub Passes : S → List RetentionReport → S → Type 0
  Passes s [] s' = s ≡ s'
  Passes s (r ∷ rs) s' = (m : S) × (run_once pass batch_size s ≡ ok (r, m)) × Passes m rs s'

  -- Every pass is full but the last of a cycle that stopped before its budget was spent.
  abbrev pub Stops : Bool → List RetentionReport → Type 0
  Stops exhausted [] = exhausted ≡ true
  Stops exhausted (r ∷ rs) =
      (IsFull batch_size r × Stops exhausted rs)
      ⊎ (IsPartial batch_size r × (rs ≡ []) × (exhausted ≡ false))

  -- What the loop did from a total on, with the passes that were left
  record IsLoop (left : ℕ) (totals : RetentionReport) (s : S) (c : RetentionCycleReport) (s' : S)
      : Type 0 where
    reports : List RetentionReport
    passed : Passes s reports s'
    summed : c.totals ≡ total totals reports
    stops : Stops c.pass_budget_exhausted reports
    counted : c.passes + left ≡ max_passes_per_cycle + length reports
    bounded : length reports ≤ left

  -- What a cycle did.
  pub record IsCycle (s : S) (c : RetentionCycleReport) (s' : S) : Type 0 where
    pub reports : List RetentionReport
    pub passed : Passes s reports s'
    pub summed : (k : Kind) → count k c.totals ≡ min (sum k reports) u64_max
    pub stops : Stops c.pass_budget_exhausted reports
    pub counted : c.passes ≡ length reports
    pub bounded : length reports ≤ 128
