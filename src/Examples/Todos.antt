-- ===== src/Examples/Todos.antt =====
-- Todos, their patches and their lists on concrete inputs (src/domain/todo.rs,
-- src/application/todos.rs, src/infrastructure/postgres/todos.rs).
use silicon_commit.Base.{
  suc, ◌≡◌, ◌↔◌, refl, true, false, List, [], ◌∷◌, none, some, ok, arith, length, list_beq,
  string_eq,
}
use silicon_commit.Text.{chars, trim, trim_start, trim_end, is_whitespace}
use silicon_commit.Domain.Validation.{
  default_limits, required_text, limited_text, ensure_item_count, ensure_unique, observe,
}
use silicon_commit.Domain.Actor.{Actor, carbon, silicon}
use silicon_commit.Domain.Todo.{
  Todo, TodoCreate, ValidatedTodoCreate, validate_create, TodoPatch, ValidatedTodoPatch,
  validate_patch, absent, validate_attachments,
}
use silicon_commit.Domain.Todo.Laws.{
  IsCreateOf, validate_create-IsCreateOf, IsPatchOf, validate_patch-IsPatchOf,
}
use silicon_commit.Domain.Todo.Status.{
  TodoStatus, yet_to_do, in_progress, completed, status_as_str, status_from_str,
  status_from_str_iff,
}
use silicon_commit.Domain.Pagination.{CreatedAtRange}
use silicon_commit.Domain.Pagination.Keyset.{filter}
use silicon_commit.Application.Authorization.{VerifiedActor, bearer, acts_for, can_patch_todo}
use silicon_commit.Application.Todos.{from_patch, resolved_assignee, apply_desired}
use silicon_commit.Application.Todos.Patches.{
  can_patch_todo-outsider, from_patch-can_patch_todo, IsSameBut,
}
use silicon_commit.Application.Todos.Changes.{IsChangeReport, from_patch-IsChangeReport}
use silicon_commit.Postgres.Listing.{TodoQuery, TodoRow, Database, all_visible, selected}
use silicon_commit.Postgres.Listing.Complete.{follow_todos, list_todos_complete}

abbrev owner : Actor
owner = record { uuid = chars "own"; actor_type = silicon; id = chars "si:own" }

abbrev worker : Actor
worker = record { uuid = chars "wrk"; actor_type = carbon; id = chars "c:wrk" }

abbrev stranger : Actor
stranger = record { uuid = chars "str"; actor_type = carbon; id = chars "c:str" }

abbrev caller : Actor → VerifiedActor
caller a = record { actor = a; custodian = none; managed_silicons = []; grant = bearer none none }

abbrev task : Todo
task = record {
  id = 1;
  title = chars "Task";
  description = none;
  assigned_to = worker;
  assigned_by = owner;
  status = yet_to_do;
  attachments = [];
  created_at = 10;
  updated_at = 10;
  project_id = none;
}

abbrev creation : TodoCreate
creation = record {
  title = chars " Task ";
  description = some (chars "why");
  assigned_to = chars "c:wrk";
  status = yet_to_do;
  attachments = chars "https://a.example/1" ∷ [];
  project_id = none;
}

abbrev created_todo : ValidatedTodoCreate
created_todo = record {
  title = chars "Task";
  description = some (chars "why");
  assigned_to = chars "c:wrk";
  status = yet_to_do;
  attachments = chars "https://a.example/1" ∷ [];
  project_id = none;
}

creation-accepted : validate_create creation default_limits ≡ ok created_todo
unfolding validate_create required_text limited_text validate_attachments ensure_item_count
    ensure_unique observe trim trim_start trim_end is_whitespace list_beq
creation-accepted = refl

validate_create-IsCreateOf_example : IsCreateOf default_limits creation created_todo
validate_create-IsCreateOf_example =
    validate_create-IsCreateOf creation default_limits creation-accepted

abbrev progress : TodoPatch
progress = record {
  title = none;
  description = absent;
  assigned_to = none;
  status = some in_progress;
  attachments = none;
  project_id = absent;
}

abbrev progress_patch : ValidatedTodoPatch
progress_patch = record {
  title = none;
  description = absent;
  assigned_to = none;
  status = some in_progress;
  attachments = none;
  project_id = absent;
}

progress-accepted : validate_patch progress default_limits ≡ ok progress_patch
unfolding validate_patch
progress-accepted = refl

validate_patch-IsPatchOf_example : IsPatchOf default_limits progress progress_patch
validate_patch-IsPatchOf_example =
    validate_patch-IsPatchOf progress default_limits progress-accepted

worker-may : can_patch_todo (caller worker) task progress_patch ≡ true
unfolding can_patch_todo acts_for list_beq
worker-may = refl

worker-not_owner : acts_for (caller worker) owner.uuid ≡ false
unfolding acts_for list_beq
worker-not_owner = refl

stranger-not_owner : acts_for (caller stranger) owner.uuid ≡ false
unfolding acts_for list_beq
stranger-not_owner = refl

stranger-not_assignee : acts_for (caller stranger) worker.uuid ≡ false
unfolding acts_for list_beq
stranger-not_assignee = refl

from_patch-can_patch_todo_example : IsSameBut task (
    apply_desired task
      (from_patch task progress_patch (resolved_assignee (λ id. stranger) progress_patch))
      20)
from_patch-can_patch_todo_example =
    from_patch-can_patch_todo (caller worker) task progress_patch (λ id. stranger) 20 worker-may
      worker-not_owner

can_patch_todo-outsider_example : can_patch_todo (caller stranger) task progress_patch ≡ false
can_patch_todo-outsider_example =
    can_patch_todo-outsider (caller stranger) task progress default_limits progress-accepted
      stranger-not_owner stranger-not_assignee

from_patch-IsChangeReport_example : IsChangeReport task (from_patch task progress_patch none)
from_patch-IsChangeReport_example = from_patch-IsChangeReport task progress_patch none

status_from_str_iff_example :
    (status_from_str "blocked" ≡ ok TodoStatus.blocked)
    ↔ ("blocked" ≡ status_as_str TodoStatus.blocked)
status_from_str_iff_example = status_from_str_iff "blocked" TodoStatus.blocked

-- Two rows of one instant, and an older one that is deleted.
abbrev rows : List TodoRow
rows =
    record {
      todo = record {
        id = 3;
        title = chars "C";
        description = none;
        assigned_to = worker;
        assigned_by = owner;
        status = yet_to_do;
        attachments = [];
        created_at = 10;
        updated_at = 10;
        project_id = none;
      };
      is_deleted = false;
    }
    ∷ record { todo = task; is_deleted = false }
    ∷ record {
      todo = record {
        id = 5;
        title = chars "A";
        description = none;
        assigned_to = worker;
        assigned_by = owner;
        status = completed;
        attachments = [];
        created_at = 5;
        updated_at = 5;
        project_id = none;
      };
      is_deleted = true;
    }
    ∷ []

abbrev query : TodoQuery
query = record {
  view = all_visible;
  status = none;
  assigned_to = none;
  assigned_by = none;
  created_from = none;
  created_to = none;
  cursor = none;
  limit = 1;
  project_id = none;
}

abbrev everyone : Database
everyone = record { todo_access = λ id me. true; lower = λ t. t }

abbrev always : CreatedAtRange
always = record { from = none; to = none }

list_todos_complete_example :
    follow_todos everyone rows
      (chars "wrk")
      query
      always
      (suc (length (filter (selected everyone (chars "wrk") query always) rows)))
      none
    ≡ filter (selected everyone (chars "wrk") query always) rows
list_todos_complete_example =
    list_todos_complete everyone rows (chars "wrk") query always
      ((refl, (refl, tt)), ((refl, tt), (tt, tt))) (omega arith)
