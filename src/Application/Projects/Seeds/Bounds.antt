-- ===== src/Application/Projects/Seeds/Bounds.antt =====
-- The first loop of `prepare_seed_tasks`: it ends within its fuel, and what its answers mean.
use silicon_commit.Base.{
  ℕ, zero, suc, ◌+◌, ◌≡◌, ◌≢◌, ◌≤◌, ◌<◌, refl, sym, ◌∙◌, Bool, true, ◌&&◌, ◌||◌, List, [], ◌∷◌,
  Option, none, some, length, ◌⊎◌, ltb, ok, err, arith, Bool-cases, inl, inr,
}
use silicon_commit.Text.{Text}
use silicon_commit.Domain.Ids.{ActorId}
use silicon_commit.Domain.Project.{ProjectSeedTask, seed, SeedTasks, no_seeds, more_seeds}
use silicon_commit.Application.Projects.Seeds.{
  note_assignee, push_scan, scan, too_many_tasks, too_many_assignees,
}
use silicon_commit.Error.{AppError, Fallible}
use silicon_commit.Application.Projects.Seeds.Order.{size, size_all, shallow, shallow_all}

pub scan_total :
    (fuel : ℕ) (stack : List (ProjectSeedTask × ℕ)) (count : ℕ) (seen : List Text)
    → count ≤ 1000
    → 1001 < fuel + count
    → scan fuel stack count seen ≢ none
unfolding scan
scan_total zero stack count seen h k = absurd (omega arith)
scan_total (suc fuel) [] count seen h k = λ e. cc e
scan_total (suc fuel) ((seed title description status assigned_to subtasks, depth) ∷ stack) count
      seen h k =
    ground (
      arith,
      scan_total fuel (push_scan subtasks (depth + 1) stack) (count + 1)
          (note_assignee assigned_to seen),
    )

-- The tasks left on the first stack, and whether none lies too deep.
unfoldable pub left : List (ProjectSeedTask × ℕ) → ℕ
left [] = 0
left ((t, depth) ∷ stack) = size t + left stack

unfoldable pub left_shallow : List (ProjectSeedTask × ℕ) → Bool
left_shallow [] = true
left_shallow ((t, depth) ∷ stack) = shallow t depth && left_shallow stack

pub left-push_scan :
    (ts : SeedTasks) (depth : ℕ) (stack : List (ProjectSeedTask × ℕ))
    → left (push_scan ts depth stack) ≡ size_all ts + left stack
unfolding left push_scan size_all
left-push_scan no_seeds depth stack = omega arith
left-push_scan (more_seeds t ts) depth stack =
    omega (arith, left-push_scan ts depth ((t, depth) ∷ stack))

pub left_shallow-push_scan :
    (ts : SeedTasks) (depth : ℕ) (stack : List (ProjectSeedTask × ℕ))
    → left_shallow (push_scan ts depth stack) ≡ (shallow_all ts depth && left_shallow stack)
unfolding left_shallow push_scan shallow_all
left_shallow-push_scan no_seeds depth stack = refl
left_shallow-push_scan (more_seeds t ts) depth stack =
    left_shallow-push_scan ts depth ((t, depth) ∷ stack) ∙ ground arith

-- A scan that passes has seen at most 1000 tasks and 16 levels.
pub scan-bounds :
    (fuel : ℕ) (stack : List (ProjectSeedTask × ℕ)) (count : ℕ) (seen : List Text)
    → count ≤ 1000
    → scan fuel stack count seen ≡ some (ok tt)
    → (left stack + count ≤ 1000) × (left_shallow stack ≡ true)
unfolding scan left left_shallow size shallow
scan-bounds zero stack count seen c h = absurd (cc h)
scan-bounds (suc fuel) [] count seen c h = (omega arith, refl)
scan-bounds (suc fuel) ((seed title description status assigned_to subtasks, depth) ∷ stack) count
      seen c h =
    ground (
      arith,
      scan-bounds fuel (push_scan subtasks (depth + 1) stack) (count + 1)
          (note_assignee assigned_to seen),
      left-push_scan subtasks (depth + 1) stack,
      left_shallow-push_scan subtasks (depth + 1) stack,
    )

pub scan-errors :
    (fuel : ℕ) (stack : List (ProjectSeedTask × ℕ)) (count : ℕ) (seen : List Text) {e : AppError}
    → scan fuel stack count seen ≡ some (err e)
    → (e ≡ too_many_tasks) ⊎ (e ≡ too_many_assignees)
unfolding scan
scan-errors zero stack count seen h = absurd (cc h)
scan-errors (suc fuel) [] count seen h = absurd (cc h)
scan-errors (suc fuel) ((seed title description status assigned_to subtasks, depth) ∷ stack) count
      seen {e} h =
    let noted = note_assignee assigned_to seen in
    elim (Bool-cases (ltb 1000 (count + 1) || ltb 16 depth)) [
      | inl many ↦ inl (err_inj e too_many_tasks (sym h ∙ rw many refl))
      | inr few ↦ elim (Bool-cases (ltb 100 (length noted))) [
        | inl full ↦ inr (err_inj e too_many_assignees (sym h ∙ rw (few, full) refl))
        | inr room ↦
            scan-errors fuel (push_scan subtasks (depth + 1) stack) (count + 1) noted
              (sym (rw (few, room) refl) ∙ h)
      ]
    ]
  where
    err_inj :
        (a b : AppError)
        → ◌≡◌ {A = Option (Fallible (Unit {0}))} (some (err a)) (some (err b))
        → a ≡ b
    err_inj a b p = cc p

length-note_assignee :
    (o : Option ActorId) (seen : List Text) → length (note_assignee o seen) ≤ length seen + 1
length-note_assignee none seen = omega arith
length-note_assignee (some id) seen = ground arith

-- A scan of few tasks passes.
pub scan_small :
    (fuel : ℕ) (stack : List (ProjectSeedTask × ℕ)) (count : ℕ) (seen : List Text)
    → left stack + length seen ≤ 100
    → left stack + count < 1000
    → left_shallow stack ≡ true
    → left stack < fuel
    → scan fuel stack count seen ≡ some (ok tt)
unfolding scan left left_shallow size shallow
scan_small zero stack count seen a c s f = absurd (omega arith)
scan_small (suc fuel) [] count seen a c s f = refl
scan_small (suc fuel) ((seed title description status assigned_to subtasks, depth) ∷ stack) count
      seen a c s f =
    let noted = note_assignee assigned_to seen in
    ground (
      arith,
      length-note_assignee assigned_to seen,
      scan_small fuel (push_scan subtasks (depth + 1) stack) (count + 1) noted,
      left-push_scan subtasks (depth + 1) stack,
      left_shallow-push_scan subtasks (depth + 1) stack,
    )
