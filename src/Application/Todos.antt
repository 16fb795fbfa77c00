-- ===== src/Application/Todos.antt =====
-- src/application/todos.rs: the todo that a patch asks for, its authorization, and the todo that is
-- stored. Titles, accounts and attachments are those of the validated request.
pub mod Patches
pub mod Changes
use silicon_commit.Base.{
  ℕ, Bool, true, false, not, ◌&&◌, ◌||◌, List, [], ◌∷◌, ◌++◌, Option, none, some, String,
  if◌then◌else◌, ◌==◌, ◌!=◌, contains, list_eq, nat_eq, option_eq, string_eq, is_empty, Result, ok,
  err, ◌>>=◌, ◌>>◌, fail_if, max,
}
use silicon_commit.Text.{Text}
use silicon_commit.Domain.Validation.{RequiredText, LimitedText}
use silicon_commit.Domain.Ids.{AccountUuid, ActorId, ProjectId}
use silicon_commit.Domain.Actor.{Actor}
use silicon_commit.Domain.Attachment.{AttachmentUrl}
use silicon_commit.Domain.Todo.{
  Todo, Time, ValidatedTodoPatch, NullablePatch, absent, null, value, is_some,
}
use silicon_commit.Domain.Todo.Status.{TodoStatus, status_eq}
use silicon_commit.Application.Authorization.{VerifiedActor, can_patch_todo, can_add_todo_note}
use silicon_commit.Error.{AppError, denied, Fallible}

pub data TodoActivityKind : Type 0 where
  created updated status_changed reassigned note_added deleted : TodoActivityKind

-- `TodoActivityKind::as_str`
unfoldable pub activity_as_str : TodoActivityKind → String
activity_as_str created = "created"
activity_as_str updated = "updated"
activity_as_str status_changed = "status_changed"
activity_as_str reassigned = "reassigned"
activity_as_str note_added = "note_added"
activity_as_str deleted = "deleted"

-- `option.unwrap_or(default)`
abbrev pub or_default : {A : Type 0} → Option A → A → A
or_default none d = d
or_default (some a) d = a

-- The `match` on a nullable field: kept, cleared, or replaced.
abbrev pub patched : {A : Type 0} → NullablePatch A → Option A → Option A
patched absent current = current
patched null current = none
patched (value v) current = some v

pub record DesiredTodo : Type 0 where
  pub project_id : Option ProjectId
  pub title : RequiredText
  pub description : Option LimitedText
  pub assigned_to : Actor
  pub status : TodoStatus
  pub attachments : List AttachmentUrl
  pub replace_attachments : Bool
  pub changed_fields : List String
  pub activity_kind : TodoActivityKind

-- `if changed { changed_fields.push(name) }`
abbrev pub push_if : Bool → String → List String → List String
push_if changed name fields = fields ++ (if changed then name ∷ [] else [])

-- The five fields that `from_patch` compares before it chooses the kind of activity
unfoldable pub content_changes :
    Todo → RequiredText → Option LimitedText → Actor → TodoStatus → List AttachmentUrl → List String
content_changes current title description assigned_to status attachments =
    push_if (attachments != current.attachments) "attachments" (
      push_if (status != current.status) "status" (
        push_if (assigned_to.uuid != current.assigned_to.uuid) "assigned_to" (
          push_if (description != current.description) "description"
            (push_if (title != current.title) "title" []))))

unfoldable pub activity_kind_of : List String → TodoActivityKind
activity_kind_of changed_fields =
    if contains changed_fields "assigned_to"
    then reassigned
    else if contains changed_fields "status"
    then status_changed
    else updated

-- `resolved_assignee` of `update`, where the account directory finds the assignee that is named
unfoldable pub resolved_assignee : (ActorId → Actor) → ValidatedTodoPatch → Option Actor
resolved_assignee directory patch = elim patch.assigned_to [
  | none ↦ none
  | some id ↦ some (directory id)
]

-- `DesiredTodo::from_patch`
unfoldable pub from_patch : Todo → ValidatedTodoPatch → Option Actor → DesiredTodo
unfolding content_changes activity_kind_of
from_patch current patch resolved_assignee =
    let title = or_default patch.title current.title in
    let description = patched patch.description current.description in
    let assigned_to = or_default resolved_assignee current.assigned_to in
    let status = or_default patch.status current.status in
    let attachments = or_default patch.attachments current.attachments in
    let changed = content_changes current title description assigned_to status attachments in
    let project_id = patched patch.project_id current.project_id in
    record {
      project_id = project_id;
      title = title;
      description = description;
      assigned_to = assigned_to;
      status = status;
      attachments = attachments;
      replace_attachments = is_some patch.attachments;
      changed_fields = push_if (project_id != current.project_id) "project_id" changed;
      activity_kind = activity_kind_of changed;
    }

unfoldable pub update_event_type : List String → String
update_event_type changed_fields =
    if contains changed_fields "assigned_to"
    then "todo.reassigned"
    else if contains changed_fields "status"
    then "todo.status_changed"
    else "todo.updated"

unfoldable pub authorize_patch : VerifiedActor → Todo → ValidatedTodoPatch → Fallible (Unit {0})
authorize_patch actor todo patch =
    fail_if (not (can_patch_todo actor todo patch)) (denied "todo_change_not_allowed")

unfoldable pub authorize_note : VerifiedActor → Todo → Fallible (Unit {0})
authorize_note actor todo =
    fail_if (not (can_add_todo_note actor todo)) (denied "todo_note_not_allowed")

-- The todo that `update_todo` leaves: the attachments are written only where they are replaced.
unfoldable pub apply_desired : Todo → DesiredTodo → Time → Todo
apply_desired current desired now = record {
  id = current.id;
  title = desired.title;
  description = desired.description;
  assigned_to = desired.assigned_to;
  assigned_by = current.assigned_by;
  status = desired.status;
  attachments = if desired.replace_attachments then desired.attachments else current.attachments;
  created_at = current.created_at;
  updated_at = max now current.updated_at;
  project_id = desired.project_id;
}
