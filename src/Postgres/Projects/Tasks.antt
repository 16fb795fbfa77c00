-- ===== src/Postgres/Projects/Tasks.antt =====
-- src/infrastructure/postgres/projects.rs: the tasks of one project and the todos that mirror them,
-- with the trigger `tasks_sync_todo` of the migrations. An actor reference is its account.
use silicon_commit.Base.{
  Bool, true, false, not, ◌&&◌, ◌||◌, List, [], ◌∷◌, Option, none, some, max, if◌then◌else◌,
  nat_beq, ok, err,
}
use silicon_commit.Text.{Text}
use silicon_commit.Domain.Ids.{AccountUuid, ProjectId, ProjectTaskId, TodoId}
use silicon_commit.Domain.Todo.{Time}
use silicon_commit.Domain.Todo.Status.{TodoStatus}
use silicon_commit.Domain.Project.Tasks.{ValidatedProjectTaskCreate, ValidatedProjectTaskPatch}
use silicon_commit.Postgres.Projects.{ProjectRows}
use silicon_commit.Postgres.Projects.Changes.{touch_project, coalesce}
use silicon_commit.Error.{not_found, Fallible}

-- A row of `commit.project_tasks`
pub record TaskRow : Type 0 where
  pub id : ProjectTaskId
  pub parent_task_id : Option ProjectTaskId
  pub title : Text
  pub description : Text
  pub status : TodoStatus
  pub created_by_account : AccountUuid
  pub created_at : Time
  pub updated_at : Time
  pub assigned_to_account : Option AccountUuid
  pub todo_id : Option TodoId
  pub is_deleted : Bool

-- The columns of `commit.todos` that a task's work concerns
pub record WorkTodo : Type 0 where
  pub id : TodoId
  pub title : Text
  pub description : Option Text
  pub assigned_by_account : AccountUuid
  pub assigned_to_account : AccountUuid
  pub status : TodoStatus
  pub project_id : Option ProjectId
  pub deleted_by_account : Option AccountUuid
  pub is_deleted : Bool

-- The rows that the use cases on tasks read and write
pub record Work : Type 0 where
  pub rows : ProjectRows
  pub tasks : List TaskRow
  pub todos : List WorkTodo

-- The live row of an id
abbrev pub is_task : ProjectTaskId → TaskRow → Bool
is_task id t = nat_beq t.id id && not t.is_deleted

abbrev pub is_live_todo : TodoId → WorkTodo → Bool
is_live_todo id t = nat_beq t.id id && not t.is_deleted

-- `fetch_task_by_id`
unfoldable pub fetch_task_by_id : ProjectTaskId → List TaskRow → Option TaskRow
fetch_task_by_id id [] = none
fetch_task_by_id id (t ∷ ts) = if is_task id t then some t else fetch_task_by_id id ts

-- `parent_task_exists`
unfoldable pub parent_task_exists : ProjectTaskId → List TaskRow → Bool
parent_task_exists id [] = false
parent_task_exists id (t ∷ ts) = is_task id t || parent_task_exists id ts

-- An `UPDATE` of the live row of an id
unfoldable pub update_row : ProjectTaskId → (TaskRow → TaskRow) → List TaskRow → List TaskRow
update_row id f [] = []
update_row id f (t ∷ ts) = (if is_task id t then f t else t) ∷ update_row id f ts

abbrev or_kept : {A : Type 0} → Option A → A → A
or_kept none a = a
or_kept (some b) a = b

-- The branch of the trigger for tasks: the live todo of the task follows it.
unfoldable pub sync_todo : TaskRow → List WorkTodo → List WorkTodo
sync_todo t [] = []
sync_todo t (w ∷ ws) =
    (if elim t.todo_id [ none ↦ false | some id ↦ is_live_todo id w ]
      then record w {
        title = t.title;
        description = some t.description;
        status = t.status;
        assigned_to_account = or_kept t.assigned_to_account w.assigned_to_account;
      }
      else w)
    ∷ sync_todo t ws

-- The trigger for the row that a statement leaves
unfoldable pub sync_task : Option TaskRow → List WorkTodo → List WorkTodo
unfolding sync_todo
sync_task none todos = todos
sync_task (some t) todos = sync_todo t todos

-- `insert_task`
unfoldable pub insert_task :
    AccountUuid → ProjectTaskId → ValidatedProjectTaskCreate → Time → Work → Work
insert_task actor task_id command now w = record w {
  rows = record w.rows { project = touch_project now w.rows.project };
  tasks =
      record {
        id = task_id;
        parent_task_id = command.parent_task_id;
        title = command.title;
        description = command.description;
        status = command.status;
        created_by_account = actor;
        created_at = now;
        updated_at = now;
        assigned_to_account = none;
        todo_id = none;
        is_deleted = false;
      }
      ∷ w.tasks;
}

-- The columns that `update_task` sets
unfoldable pub patch_task : ValidatedProjectTaskPatch → Time → TaskRow → TaskRow
patch_task command now t = record t {
  title = coalesce command.title t.title;
  description = coalesce command.description t.description;
  status = coalesce command.status t.status;
  updated_at = max t.updated_at now;
}

-- `update_task`: none where no live row has the id
unfoldable pub update_task : ProjectTaskId → ValidatedProjectTaskPatch → Time → Work → Option Work
unfolding patch_task
update_task task_id command now w = elim (fetch_task_by_id task_id w.tasks) [
  | none ↦ none
  | some before ↦
      let tasks = update_row task_id (patch_task command now) w.tasks in
      some (record w {
        rows = record w.rows { project = touch_project now w.rows.project };
        tasks = tasks;
        todos = sync_task (fetch_task_by_id task_id tasks) w.todos;
      })
]

-- The `UPDATE` of `assign_task`
unfoldable pub set_assignee : ProjectTaskId → AccountUuid → TodoId → Time → Work → Work
set_assignee task_id assignee todo_id now w =
    let tasks =
      update_row task_id
        (λ t. record t {
          assigned_to_account = some assignee;
          todo_id = some todo_id;
          updated_at = max t.updated_at now;
        })
        w.tasks in
    record w { tasks = tasks; todos = sync_task (fetch_task_by_id task_id tasks) w.todos }

-- The `UPDATE` that detaches a task from its todo
unfoldable pub clear_assignee : ProjectTaskId → Time → Work → Work
clear_assignee task_id now w = record w {
  tasks =
      update_row task_id
        (λ t. record t {
          assigned_to_account = none;
          todo_id = none;
          updated_at = max t.updated_at now;
        })
        w.tasks;
}

-- `insert_todo` for a task
unfoldable pub insert_work_todo :
    TodoId → TaskRow → AccountUuid → AccountUuid → ProjectId → Work → Work
insert_work_todo id task assigned_by assigned_to project_id w = record w {
  todos =
      record {
        id = id;
        title = task.title;
        description = some task.description;
        assigned_by_account = assigned_by;
        assigned_to_account = assigned_to;
        status = task.status;
        project_id = some project_id;
        deleted_by_account = none;
        is_deleted = false;
      }
      ∷ w.todos;
}

unfoldable pub has_live_todo : TodoId → List WorkTodo → Bool
has_live_todo id [] = false
has_live_todo id (w ∷ ws) = is_live_todo id w || has_live_todo id ws

unfoldable pub delete_todo_row : TodoId → AccountUuid → List WorkTodo → List WorkTodo
delete_todo_row id actor [] = []
delete_todo_row id actor (w ∷ ws) =
    (if is_live_todo id w
      then record w { is_deleted = true; deleted_by_account = some actor }
      else w)
    ∷ delete_todo_row id actor ws

-- `soft_delete_todo` of a todo that no task refers to any more, so that its trigger changes no task;
-- the retention fits an `i64`
unfoldable pub soft_delete_detached : TodoId → AccountUuid → Work → Fallible Work
unfolding has_live_todo delete_todo_row
soft_delete_detached id actor w =
    if has_live_todo id w.todos
    then ok (record w { todos = delete_todo_row id actor w.todos })
    else err not_found
