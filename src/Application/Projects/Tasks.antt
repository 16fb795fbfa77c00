-- ===== src/Application/Projects/Tasks.antt =====
-- src/application/projects/collaboration.rs and the tasks of src/application/projects.rs: creating,
-- patching, assigning and claiming the tasks of one project. An account of the directory is an
-- `Actor`; fresh ids are arguments. Notifications, audit events and stored responses are left out.
pub mod Claims
pub mod Requests
pub mod Exclusive
pub mod Keeps
use silicon_commit.Base.{
  ℕ, Bool, true, false, not, ◌&&◌, ◌||◌, List, [], ◌∷◌, Option, none, some, if◌then◌else◌, is_empty,
  ◌==◌, list_eq, nat_eq, Result, ok, err, fail_if, map_err, ok_or, ◌>>=◌, ◌>>◌,
}
use silicon_commit.Text.{Text, eq_ignore_ascii_case}
use silicon_commit.Domain.Ids.{AccountUuid, ActorId, ProjectTaskId, TodoId}
use silicon_commit.Domain.Actor.{Actor}
use silicon_commit.Domain.Todo.{Time, is_some, NullablePatch, absent, null, value}
use silicon_commit.Domain.Validation.{validation_error, invalid}
use silicon_commit.Domain.Project.Tasks.{ValidatedProjectTaskCreate, ValidatedProjectTaskPatch}
use silicon_commit.Application.Authorization.{VerifiedActor}
use silicon_commit.Application.Projects.{authorize_locked_project}
use silicon_commit.Application.Projects.Membership.{ensure_reachable}
use silicon_commit.Postgres.Projects.{Circles}
use silicon_commit.Postgres.Projects.Changes.{add_member}
use silicon_commit.Postgres.Projects.Tasks.{
  Work, TaskRow, fetch_task_by_id, parent_task_exists, insert_task, update_task, set_assignee,
  clear_assignee, insert_work_todo, soft_delete_detached,
}
use silicon_commit.Error.{AppError, conflict, not_found, validation, Fallible}

-- The account directory for one id
abbrev pub DirectoryOfOne : Type 0
DirectoryOfOne = ActorId → Fallible Actor

-- `resolve_task_assignee`
unfoldable pub resolve_task_assignee :
    DirectoryOfOne → VerifiedActor → Option ActorId → Fallible (Option Actor)
resolve_task_assignee directory actor none = ok none
resolve_task_assignee directory actor (some id) =
    if id == actor.actor.uuid
      || (not (is_empty actor.actor.id) && eq_ignore_ascii_case id actor.actor.id)
    then ok (some actor.actor)
    else directory id >>= λ found. ok (some found)

-- The todo of a task, made if it has none
abbrev pub with_todo : AccountUuid → Actor → TaskRow → TodoId → Work → TodoId × Work
with_todo actor assignee task fresh w = elim task.todo_id [
  | some id ↦ (id, w)
  | none ↦ (fresh, insert_work_todo fresh task actor assignee.uuid w.rows.project.id w)
]

abbrev pub with_member : AccountUuid → AccountUuid → Time → Work → Work
with_member actor member now w = record w {
  rows = record w.rows { participants = add_member actor member now w.rows.participants };
}

-- The two branches of `assign_task` for the task that was read
unfoldable pub assign_found :
    Circles
    → AccountUuid
    → ProjectTaskId
    → TodoId
    → Time
    → Option Actor
    → TaskRow
    → Work
    → Fallible Work
assign_found db actor task_id fresh now (some assignee) task w = do
  ensure_reachable db actor assignee
  let shared = with_member actor assignee.uuid now w
  let made = with_todo actor assignee task fresh shared
  ok (set_assignee task_id assignee.uuid made.0 now made.1)
assign_found db actor task_id fresh now none task w = elim task.todo_id [
  | none ↦ ok (clear_assignee task_id now w)
  | some id ↦ soft_delete_detached id actor (clear_assignee task_id now w)
]

unfoldable pub assign_task :
    Circles → AccountUuid → ProjectTaskId → TodoId → Time → Option Actor → Work → Fallible Work
unfolding assign_found
assign_task db actor task_id fresh now assignee w = do
  task ← ok_or (fetch_task_by_id task_id w.tasks) not_found
  assign_found db actor task_id fresh now assignee task w

-- `claim_task` after the lock, where no response is stored
unfoldable pub claim_open :
    Circles → VerifiedActor → ProjectTaskId → TodoId → Time → Work → Fallible (TaskRow × Work)
claim_open db actor task_id fresh now w = do
  task ← ok_or (fetch_task_by_id task_id w.tasks) not_found
  fail_if (is_some task.assigned_to_account) (conflict "task_already_assigned")
  w' ← assign_task db actor.actor.uuid task_id fresh now (some actor.actor) w
  claimed ← ok_or (fetch_task_by_id task_id w'.tasks) not_found
  ok (claimed, w')

-- `claim_task` where no response is stored
unfoldable pub claim_task :
    Circles → VerifiedActor → ProjectTaskId → TodoId → Time → Work → Fallible (TaskRow × Work)
unfolding claim_open
claim_task db actor task_id fresh now w = do
  locked ← authorize_locked_project db actor.actor.uuid w.rows
  claim_open db actor task_id fresh now w

-- The check of a parent
abbrev pub ensure_parent : Option ProjectTaskId → List TaskRow → Fallible (Unit {0})
ensure_parent none tasks = ok tt
ensure_parent (some parent) tasks = fail_if (not (parent_task_exists parent tasks)) (
    validation
      (validation_error "parent_task_id" (invalid "must identify a task in the same project")))

-- The assignment of a new task, if it has an assignee
abbrev pub assign_new :
    Circles → AccountUuid → ProjectTaskId → TodoId → Time → Option Actor → Work → Fallible Work
assign_new db actor task_id fresh now none w = ok w
assign_new db actor task_id fresh now (some a) w = assign_task db actor task_id fresh now (some a) w

-- `create_task` from the validated command and its resolved assignee on, where no response is stored
unfoldable pub create_task :
    Circles
    → AccountUuid
    → ProjectTaskId
    → TodoId
    → Time
    → ValidatedProjectTaskCreate
    → Option Actor
    → Work
    → Fallible (TaskRow × Work)
create_task db actor task_id fresh now command assignee w = do
  locked ← authorize_locked_project db actor w.rows
  ensure_parent command.parent_task_id w.tasks
  w' ← assign_new db actor task_id fresh now assignee (insert_task actor task_id command now w)
  task ← ok_or (fetch_task_by_id task_id w'.tasks) not_found
  ok (task, w')

-- `assignment` of `update_task`: kept, taken away, or given to the account that is found
unfoldable pub assignment_of :
    DirectoryOfOne → VerifiedActor → NullablePatch ActorId → Fallible (Option (Option Actor))
unfolding resolve_task_assignee
assignment_of directory actor absent = ok none
assignment_of directory actor null = ok (some none)
assignment_of directory actor (value id) =
    resolve_task_assignee directory actor (some id) >>= λ found. ok (some found)

abbrev pub assign_patched :
    Circles
    → AccountUuid
    → ProjectTaskId
    → TodoId
    → Time
    → Option (Option Actor)
    → Work
    → Fallible Work
assign_patched db actor task_id fresh now none w = ok w
assign_patched db actor task_id fresh now (some assignee) w =
    assign_task db actor task_id fresh now assignee w

-- `update_task` of the use cases from the validated command on, without its notification
unfoldable pub patch_project_task :
    DirectoryOfOne
    → Circles
    → VerifiedActor
    → ProjectTaskId
    → TodoId
    → Time
    → ValidatedProjectTaskPatch
    → Work
    → Fallible (TaskRow × Work)
unfolding assignment_of
patch_project_task directory db actor task_id fresh now command w = do
  assignment ← assignment_of directory actor command.assigned_to
  locked ← authorize_locked_project db actor.actor.uuid w.rows
  previous ← ok_or (fetch_task_by_id task_id w.tasks) not_found
  w₁ ← assign_patched db actor.actor.uuid task_id fresh now assignment w
  w₂ ← ok_or (update_task task_id command now w₁) not_found
  task ← ok_or (fetch_task_by_id task_id w₂.tasks) not_found
  ok (task, w₂)
