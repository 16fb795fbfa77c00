-- ===== src/Domain/Project/Tasks.antt =====
-- Project tasks and the append-only entries of a project (src/domain/project.rs).
use silicon_commit.Base.{Bool, not, ◌&&◌, Option, none, some, ok, fail_if, traverse, ◌>>=◌, ◌>>◌}
use silicon_commit.Text.{Text}
use silicon_commit.Domain.Validation.{
  DomainLimits, Validated, validation_error, empty_patch, RequiredText, LimitedText, required_text,
  limited_text,
}
use silicon_commit.Domain.Ids.{ActorId, TodoId, ProjectId, ProjectTaskId, ProjectEntryId}
use silicon_commit.Domain.Actor.{Actor, ActorRef}
use silicon_commit.Domain.Todo.{Time, NullablePatch, is_absent, is_some}
use silicon_commit.Domain.Todo.Status.{TodoStatus}
use silicon_commit.Domain.Project.Status.{
  ProjectEntryType, blocker, update, completion, BlockerStatus,
}

pub record ProjectTaskCreate : Type 0 where
  pub parent_task_id : Option ProjectTaskId
  pub title : Text
  pub description : Text
  pub status : TodoStatus
  pub assigned_to : Option ActorId

pub record ValidatedProjectTaskCreate : Type 0 where
  pub parent_task_id : Option ProjectTaskId
  pub title : RequiredText
  pub description : LimitedText
  pub status : TodoStatus
  pub assigned_to : Option ActorId

-- `ProjectTaskCreate::validate`
unfoldable pub validate_task_create :
    ProjectTaskCreate → DomainLimits → Validated ValidatedProjectTaskCreate
validate_task_create request limits = do
  title ← required_text "title" request.title limits.title_chars
  description ← limited_text "description" request.description limits.description_chars
  ok (record {
    parent_task_id = request.parent_task_id;
    title = title;
    description = description;
    status = request.status;
    assigned_to = request.assigned_to;
  })

pub record ProjectTaskPatch : Type 0 where
  pub title : Option Text
  pub description : Option Text
  pub status : Option TodoStatus
  pub assigned_to : NullablePatch ActorId

pub record ValidatedProjectTaskPatch : Type 0 where
  pub title : Option RequiredText
  pub description : Option LimitedText
  pub status : Option TodoStatus
  pub assigned_to : NullablePatch ActorId

-- `ProjectTaskPatch::is_empty`
unfoldable pub is_empty_task_patch : ProjectTaskPatch → Bool
is_empty_task_patch p =
    not (is_some p.title)
    && not (is_some p.description)
    && not (is_some p.status)
    && is_absent p.assigned_to

-- `ProjectTaskPatch::validate`
unfoldable pub validate_task_patch :
    ProjectTaskPatch → DomainLimits → Validated ValidatedProjectTaskPatch
unfolding is_empty_task_patch
validate_task_patch p limits = do
  fail_if (is_empty_task_patch p) (validation_error "body" empty_patch)
  title ← traverse (λ v. required_text "title" v limits.title_chars) p.title
  description ← traverse (λ v. limited_text "description" v limits.description_chars) p.description
  ok (record {
    title = title;
    description = description;
    status = p.status;
    assigned_to = p.assigned_to;
  })

pub record ProjectTask : Type 0 where
  pub id : ProjectTaskId
  pub project_id : ProjectId
  pub parent_task_id : Option ProjectTaskId
  pub title : RequiredText
  pub description : LimitedText
  pub status : TodoStatus
  pub created_by : Actor
  pub created_at : Time
  pub assigned_to : Option ActorRef
  pub todo_id : Option TodoId

pub record ValidatedProjectEntryCreate : Type 0 where
  pub entry_type : ProjectEntryType
  pub title : RequiredText
  pub description : LimitedText
  pub status : Option BlockerStatus

unfoldable pub validate_entry :
    ProjectEntryType
    → Text
    → Text
    → Option BlockerStatus
    → DomainLimits
    → Validated ValidatedProjectEntryCreate
validate_entry entry_type title description status limits = do
  title' ← required_text "title" title limits.title_chars
  description' ← limited_text "description" description limits.description_chars
  ok (record {
    entry_type = entry_type;
    title = title';
    description = description';
    status = status;
  })

pub record BlockerCreate : Type 0 where
  pub title : Text
  pub description : Text
  pub status : BlockerStatus

-- `BlockerCreate::validate`
unfoldable pub validate_blocker :
    BlockerCreate → DomainLimits → Validated ValidatedProjectEntryCreate
unfolding validate_entry
validate_blocker b limits = validate_entry blocker b.title b.description (some b.status) limits

pub record ProjectUpdateCreate : Type 0 where
  pub title : Text
  pub description : Text

-- `ProjectUpdateCreate::validate`
unfoldable pub validate_update :
    ProjectUpdateCreate → DomainLimits → Validated ValidatedProjectEntryCreate
unfolding validate_entry
validate_update u limits = validate_entry update u.title u.description none limits

pub record ProjectCompletionCreate : Type 0 where
  pub title : Text
  pub description : Text

-- `ProjectCompletionCreate::validate`
unfoldable pub validate_completion :
    ProjectCompletionCreate → DomainLimits → Validated ValidatedProjectEntryCreate
unfolding validate_entry
validate_completion c limits = validate_entry completion c.title c.description none limits

pub record ProjectEntry : Type 0 where
  pub id : ProjectEntryId
  pub project_id : ProjectId
  pub entry_type : ProjectEntryType
  pub title : RequiredText
  pub description : LimitedText
  pub status : Option BlockerStatus
  pub created_by : Actor
  pub created_at : Time
