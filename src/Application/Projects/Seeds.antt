-- ===== src/Application/Projects/Seeds.antt =====
-- `prepare_seed_tasks` of src/application/projects/collaboration.rs: the two loops over a stack of
-- nested seed tasks. `none` means that the fuel ran out. The `n`-th fresh id is `fresh n`.
pub mod Order
pub mod Bounds
pub mod Prepared
use silicon_commit.Base.{
  ℕ, zero, suc, ◌+◌, Bool, true, false, not, ◌&&◌, ◌||◌, List, [], ◌∷◌, ◌++◌, Option, none, some,
  length, ltb, leb, if◌then◌else◌, contains, list_eq, nat_eq, Result, ok, err, map_err, ◌>>=◌, ◌>>◌,
}
use silicon_commit.Text.{Text, to_ascii_lowercase}
use silicon_commit.Domain.Ids.{ActorId, ProjectTaskId}
use silicon_commit.Domain.Actor.{Actor, prefixed_kind}
use silicon_commit.Domain.Todo.{is_some}
use silicon_commit.Domain.Todo.Status.{TodoStatus}
use silicon_commit.Domain.Validation.{DomainLimits, validation_error, invalid}
use silicon_commit.Domain.Project.{ProjectSeedTask, seed, SeedTasks, no_seeds, more_seeds}
use silicon_commit.Domain.Project.Tasks.{ValidatedProjectTaskCreate, validate_task_create}
use silicon_commit.Application.Authorization.{VerifiedActor}
use silicon_commit.Application.Projects.Tasks.{DirectoryOfOne, resolve_task_assignee}
use silicon_commit.Error.{AppError, validation, Fallible}

abbrev pub too_many_tasks : AppError
too_many_tasks =
    validation
      (validation_error "tasks" (invalid "at most 1000 initial tasks and 16 levels are supported"))

abbrev pub too_many_assignees : AppError
too_many_assignees =
    validation
      (validation_error "tasks" (invalid "at most 100 distinct initial assignees are supported"))

-- What is compared of an assignee
unfoldable pub assignee_key : ActorId → Text
assignee_key id = if is_some (prefixed_kind id) then to_ascii_lowercase id else id

-- `assignees.insert(..)` if the task has an assignee
abbrev pub note_assignee : Option ActorId → List Text → List Text
note_assignee none seen = seen
note_assignee (some id) seen =
    if contains seen (assignee_key id) then seen else assignee_key id ∷ seen

-- `scan.extend(..)`: the last child is on the top.
unfoldable pub push_scan : SeedTasks → ℕ → List (ProjectSeedTask × ℕ) → List (ProjectSeedTask × ℕ)
push_scan no_seeds depth stack = stack
push_scan (more_seeds t ts) depth stack = push_scan ts depth ((t, depth) ∷ stack)

-- The first loop
unfoldable pub scan : ℕ → List (ProjectSeedTask × ℕ) → ℕ → List Text → Option (Fallible (Unit {0}))
scan zero stack count seen = none
scan (suc fuel) [] count seen = some (ok tt)
scan (suc fuel) ((seed title description status assigned_to subtasks, depth) ∷ stack) count seen =
    let noted = note_assignee assigned_to seen in
    let rest = scan fuel (push_scan subtasks (depth + 1) stack) (count + 1) noted in
    if ltb 1000 (count + 1) || ltb 16 depth
    then some (err too_many_tasks)
    else if ltb 100 (length noted)
    then some (err too_many_assignees)
    else rest

-- `pending.extend(children.rev())`: the first child is on the top.
unfoldable pub push_pending :
    SeedTasks
    → Option ProjectTaskId
    → ℕ
    → List (ProjectSeedTask × Option ProjectTaskId × ℕ)
    → List (ProjectSeedTask × Option ProjectTaskId × ℕ)
push_pending no_seeds parent depth stack = stack
push_pending (more_seeds t ts) parent depth stack =
    (t, parent, depth) ∷ push_pending ts parent depth stack

pub record Seed : Type 0 where
  pub id : ProjectTaskId
  pub command : ValidatedProjectTaskCreate
  pub assignee : Option Actor

module _ (directory : DirectoryOfOne) (actor : VerifiedActor) (limits : DomainLimits)
    (fresh : ℕ → ProjectTaskId) where
  -- One seed: its command is validated, and its assignee resolved.
  unfoldable pub prepare_one :
      ProjectTaskId
      → Option ProjectTaskId
      → Text
      → Text
      → TodoStatus
      → Option ActorId
      → Fallible Seed
  prepare_one id parent title description status assigned_to = do
    command ← map_err validation (
        validate_task_create
          (record {
            parent_task_id = parent;
            title = title;
            description = description;
            status = status;
            assigned_to = assigned_to;
          })
          limits)
    assignee ← resolve_task_assignee directory actor assigned_to
    ok (record { id = id; command = command; assignee = assignee })

  -- `?` on the seed of one turn
  abbrev pub append_seed :
      Fallible Seed → (Seed → Option (Fallible (List Seed))) → Option (Fallible (List Seed))
  append_seed (err e) go = some (err e)
  append_seed (ok s) go = go s

  -- The second loop
  unfoldable pub collect :
      ℕ
      → List (ProjectSeedTask × Option ProjectTaskId × ℕ)
      → List Seed
      → Option (Fallible (List Seed))
  unfolding prepare_one push_pending
  collect zero stack output = none
  collect (suc fuel) [] output = some (ok output)
  collect (suc fuel) ((seed title description status assigned_to subtasks, parent, depth) ∷ stack)
        output =
      let id = fresh (length output) in
      let turn = append_seed (prepare_one id parent title description status assigned_to) (λ s.
        collect fuel (push_pending subtasks (some id) (depth + 1) stack) (output ++ s ∷ [])) in
      if leb 1000 (length output) || ltb 16 depth then some (err too_many_tasks) else turn

  -- The rest of `prepare_seed_tasks` after the first loop
  unfoldable pub collect_checked :
      SeedTasks → Option (Fallible (Unit {0})) → Option (Fallible (List Seed))
  unfolding collect push_pending
  collect_checked tasks none = none
  collect_checked tasks (some (err e)) = some (err e)
  collect_checked tasks (some (ok _)) = collect 1002 (push_pending tasks none 1 []) []

  unfoldable pub prepare_seed_tasks : SeedTasks → Option (Fallible (List Seed))
  unfolding scan push_scan collect_checked
  prepare_seed_tasks tasks = collect_checked tasks (scan 1002 (push_scan tasks 1 []) 0 [])
