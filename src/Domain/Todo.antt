-- ===== src/Domain/Todo.antt =====
-- src/domain/todo.rs: todo commands, their validation, and the todo aggregate. Times are numbers of
-- nanoseconds. Wire decoding (serde) is left out: a document is the record that it decodes to.
pub mod Status
pub mod Laws
use silicon_commit.Base.{
  ℕ, Bool, true, false, not, ◌&&◌, List, Option, none, some, length, Result, ok, err, fail_if,
  traverse, map_err, ◌>>=◌, ◌>>◌, ◌!=◌, ◌==◌, list_eq, nat_eq, ltb,
}
use silicon_commit.Text.{Text}
use silicon_commit.Domain.Validation.{
  DomainLimits, Validated, validation_error, empty_patch, inverted_range, RequiredText, LimitedText,
  required_text, limited_text, ensure_item_count, ensure_unique,
}
use silicon_commit.Domain.Ids.{ActorId, TodoId, ProjectId}
use silicon_commit.Domain.Actor.{Actor, silicon, actor_type_eq}
use silicon_commit.Domain.Attachment.{AttachmentUrl}
use Status.{TodoStatus}

abbrev pub Time : Type 0
Time = ℕ

pub record TodoCreate : Type 0 where
  pub title : Text
  pub description : Option Text
  pub assigned_to : ActorId
  pub status : TodoStatus
  pub attachments : List AttachmentUrl
  pub project_id : Option ProjectId

pub record ValidatedTodoCreate : Type 0 where
  pub title : RequiredText
  pub description : Option LimitedText
  pub assigned_to : ActorId
  pub status : TodoStatus
  pub attachments : List AttachmentUrl
  pub project_id : Option ProjectId

unfoldable pub validate_attachments : List AttachmentUrl → ℕ → Validated (List AttachmentUrl)
validate_attachments attachments max = do
  ensure_item_count "attachments" (length attachments) 0 max
  ensure_unique "attachments" attachments
  ok attachments

-- `TodoCreate::validate`
unfoldable pub validate_create : TodoCreate → DomainLimits → Validated ValidatedTodoCreate
validate_create request limits = do
  title ← required_text "title" request.title limits.title_chars
  description ←
      traverse (λ v. limited_text "description" v limits.description_chars) request.description
  attachments ← validate_attachments request.attachments limits.attachments_per_todo
  ok (record {
    title = title;
    description = description;
    assigned_to = request.assigned_to;
    status = request.status;
    attachments = attachments;
    project_id = request.project_id;
  })

-- A PATCH field: left out, explicitly null, or given.
pub data NullablePatch {ℓ} (T : Type ℓ) : Type ℓ where
  absent : NullablePatch T
  null : NullablePatch T
  value : T → NullablePatch T

-- `NullablePatch::is_absent`
abbrev pub is_absent {ℓ} : {T : Type ℓ} → NullablePatch T → Bool
is_absent absent = true
is_absent null = false
is_absent (value v) = false

-- `NullablePatch::try_map`
abbrev pub try_map {ℓ κ ν} :
    {T : Type ℓ} {U : Type κ} {E : Type ν}
    → (T → Result U E)
    → NullablePatch T
    → Result (NullablePatch U) E
try_map f absent = ok absent
try_map f null = ok null
try_map f (value v) = f v >>= λ u. ok (value u)

-- `Option::is_some`
abbrev pub is_some {ℓ} : {A : Type ℓ} → Option A → Bool
is_some none = false
is_some (some a) = true

pub record TodoPatch : Type 0 where
  pub title : Option Text
  pub description : NullablePatch Text
  pub assigned_to : Option ActorId
  pub status : Option TodoStatus
  pub attachments : Option (List AttachmentUrl)
  pub project_id : NullablePatch ProjectId

pub record ValidatedTodoPatch : Type 0 where
  pub title : Option RequiredText
  pub description : NullablePatch LimitedText
  pub assigned_to : Option ActorId
  pub status : Option TodoStatus
  pub attachments : Option (List AttachmentUrl)
  pub project_id : NullablePatch ProjectId

-- `TodoPatch::is_empty`
unfoldable pub is_empty_patch : TodoPatch → Bool
is_empty_patch p =
    not (is_some p.title)
    && is_absent p.description
    && not (is_some p.assigned_to)
    && not (is_some p.status)
    && not (is_some p.attachments)
    && is_absent p.project_id

-- `TodoPatch::validate`
unfoldable pub validate_patch : TodoPatch → DomainLimits → Validated ValidatedTodoPatch
unfolding is_empty_patch
validate_patch p limits = do
  fail_if (is_empty_patch p) (validation_error "body" empty_patch)
  title ← traverse (λ v. required_text "title" v limits.title_chars) p.title
  description ← try_map (λ v. limited_text "description" v limits.description_chars) p.description
  attachments ← traverse (λ v. validate_attachments v limits.attachments_per_todo) p.attachments
  ok (record {
    title = title;
    description = description;
    assigned_to = p.assigned_to;
    status = p.status;
    attachments = attachments;
    project_id = p.project_id;
  })

pub record Todo : Type 0 where
  pub id : TodoId
  pub title : RequiredText
  pub description : Option LimitedText
  pub assigned_to : Actor
  pub assigned_by : Actor
  pub status : TodoStatus
  pub attachments : List AttachmentUrl
  pub created_at : Time
  pub updated_at : Time
  pub project_id : Option ProjectId

-- `Todo::is_delegated`
unfoldable pub is_delegated : Todo → Bool
is_delegated t = t.assigned_by.uuid != t.assigned_to.uuid

-- `Todo::should_notify_assigner`
unfoldable pub should_notify_assigner : Todo → Bool
unfolding is_delegated
should_notify_assigner t = t.assigned_by.actor_type == silicon && is_delegated t
