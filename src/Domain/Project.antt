-- ===== src/Domain/Project.antt =====
-- src/domain/project.rs: project commands, their validation, and the project aggregate. Times are
-- numbers of nanoseconds. Wire decoding (serde) is left out: a document is the record that it
-- decodes to.
pub mod Slug
pub mod Uid
pub mod Status
pub mod Diary
pub mod Tasks
pub mod Laws
use silicon_commit.Base.{
  ℕ, ◌+◌, Bool, true, false, not, ◌&&◌, ◌||◌, List, [], ◌∷◌, ◌++◌, Option, none, some, length,
  Result, ok, err, fail_if, traverse, map_err, ◌>>=◌, ◌>>◌, ◌!=◌, ◌==◌, list_eq, nat_eq, contains,
  any, map, if◌then◌else◌, option_eq, ℤ,
}
use silicon_commit.Text.{Text}
use silicon_commit.Domain.Validation.{
  DomainLimits, Validated, ValidationError, validation_error, empty_patch, invalid, RequiredText,
  LimitedText, required_text, limited_text, ensure_item_count, ensure_unique,
}
use silicon_commit.Domain.Ids.{
  AccountUuid, ActorId, TodoId, ProjectId, ProjectTaskId, ProjectEntryId,
}
use silicon_commit.Domain.Actor.{
  Actor, ActorRef, ActorType, carbon, silicon, actor_type_eq, is_silicon,
}
use silicon_commit.Domain.Attachment.{AttachmentUrl}
use silicon_commit.Domain.Todo.{Time, NullablePatch, is_absent, is_some}
use silicon_commit.Domain.Todo.Status.{TodoStatus}
use Slug.{ProjectSlug, slug_from_name}
use Uid.{ProjectUid}
use Status.{
  ProjectStatus, completed, project_status_eq, ProjectEntryType, blocker, update, completion,
  BlockerStatus,
}

pub record ProjectDetails : Type 0 where
  pub description : Text
  pub attachments : List AttachmentUrl
  pub private : Bool
  pub carbon_ids : List ActorId

-- `ProjectDetails::validate`
unfoldable pub validate_details : ProjectDetails → DomainLimits → Validated (Unit {0})
validate_details d limits = do
  description ← limited_text "description" d.description limits.description_chars
  ensure_item_count "attachments" (length d.attachments) 0 limits.attachments_per_todo
  ensure_unique "attachments" d.attachments
  ensure_item_count "carbon_ids" (length d.carbon_ids) 0 limits.participants_per_project
  ensure_unique "carbon_ids" d.carbon_ids

-- `ProjectSeedTask`, with its children as the second type of the block
mutual
  pub data ProjectSeedTask : Type 0 where
    seed :
        (title description : Text) (status : TodoStatus) (assigned_to : Option ActorId)
        (subtasks : SeedTasks)
        → ProjectSeedTask

  pub data SeedTasks : Type 0 where
    no_seeds : SeedTasks
    more_seeds : ProjectSeedTask → SeedTasks → SeedTasks

pub record ProjectCreate : Type 0 where
  pub name : Text
  pub silicon_ids : List ActorId
  pub details : ProjectDetails
  pub tasks : SeedTasks

pub record ValidatedProjectCreate : Type 0 where
  pub name : RequiredText
  pub slug : ProjectSlug
  pub silicon_ids : List ActorId
  pub details : ProjectDetails
  pub tasks : SeedTasks

-- The creator is added to the ids of its kind unless it is listed.
abbrev pub with_creator : ActorType → Actor → List ActorId → List ActorId
with_creator kind creator ids =
    if creator.actor_type == kind && not (contains ids creator.id)
    then ids ++ creator.id ∷ []
    else ids

-- The count of the Silicons with the creator, checked only if it is added
abbrev pub ensure_room : Actor → List ActorId → DomainLimits → Validated (Unit {0})
ensure_room creator ids limits =
    if creator.actor_type == silicon && not (contains ids creator.id)
    then ensure_item_count "silicon_ids" (length ids + 1) 1 limits.participants_per_project
    else ok tt

module _ (is_alphanumeric : ℕ → Bool) (slugify : Text → Text) where
  -- `ProjectCreate::validate`
  unfoldable pub validate_project_create :
      ProjectCreate → DomainLimits → Actor → Validated ValidatedProjectCreate
  validate_project_create request limits creator = do
    validate_details request.details limits
    let details : ProjectDetails = record request.details {
      carbon_ids = with_creator carbon creator request.details.carbon_ids;
    }
    validate_details details limits
    name ← required_text "name" request.name limits.project_name_chars
    slug ←
        map_err (λ _. validation_error "name" (invalid "slug"))
          (slug_from_name is_alphanumeric slugify name)
    ensure_item_count "silicon_ids" (length request.silicon_ids) 0 limits.participants_per_project
    ensure_unique "silicon_ids" request.silicon_ids
    ensure_room creator request.silicon_ids limits
    ok (record {
      name = name;
      slug = slug;
      silicon_ids = with_creator silicon creator request.silicon_ids;
      details = details;
      tasks = request.tasks;
    })

pub record ProjectPatch : Type 0 where
  pub name : Option Text
  pub status : Option ProjectStatus
  pub silicon_ids : Option (List ActorId)
  pub description : Option Text
  pub attachments : Option (List AttachmentUrl)
  pub private : Option Bool
  pub carbon_ids : Option (List ActorId)

pub record ValidatedProjectPatch : Type 0 where
  pub name : Option RequiredText
  pub status : Option ProjectStatus
  pub silicon_ids : Option (List ActorId)
  pub description : Option Text
  pub attachments : Option (List AttachmentUrl)
  pub private : Option Bool
  pub carbon_ids : Option (List ActorId)

-- `ProjectPatch::is_empty`
unfoldable pub is_empty_project_patch : ProjectPatch → Bool
is_empty_project_patch p =
    not (is_some p.name)
    && not (is_some p.status)
    && not (is_some p.silicon_ids)
    && not (is_some p.description)
    && not (is_some p.attachments)
    && not (is_some p.private)
    && not (is_some p.carbon_ids)

abbrev pub list_or_empty : {A : Type 0} → Option (List A) → List A
list_or_empty none = []
list_or_empty (some xs) = xs

abbrev pub bool_or_false : Option Bool → Bool
bool_or_false none = false
bool_or_false (some b) = b

-- `self.status == Some(ProjectStatus::Completed)`
abbrev pub is_completing : Option ProjectStatus → Bool
is_completing none = false
is_completing (some s) = s == completed

-- `ProjectPatch::validate`
unfoldable pub validate_project_patch :
    ProjectPatch → DomainLimits → Validated ValidatedProjectPatch
unfolding is_empty_project_patch
validate_project_patch p limits = do
  fail_if (is_empty_project_patch p) (validation_error "body" empty_patch)
  fail_if (is_completing p.status) (
      validation_error "status"
        (invalid "completed is only allowed through the completion endpoint"))
  name ← traverse (λ v. required_text "name" v limits.project_name_chars) p.name
  silicon_ids ←
      traverse
        (λ v. do
          ensure_item_count "silicon_ids" (length v) 0 limits.participants_per_project
          ensure_unique "silicon_ids" v
          ok v)
        p.silicon_ids
  validate_details
      (record {
        description = list_or_empty p.description;
        attachments = list_or_empty p.attachments;
        private = bool_or_false p.private;
        carbon_ids = list_or_empty p.carbon_ids;
      })
      limits
  ok (record {
    name = name;
    status = p.status;
    silicon_ids = silicon_ids;
    description = p.description;
    attachments = p.attachments;
    private = p.private;
    carbon_ids = p.carbon_ids;
  })

-- `is_some_and(|ids| !ids.contains(creator_id))`
abbrev pub drops : Option (List ActorId) → ActorId → Bool
drops none id = false
drops (some ids) id = not (contains ids id)

-- `is_none_or(|ids| !ids.contains(creator_id))`
abbrev pub does_not_name : Option (List ActorId) → ActorId → Bool
does_not_name none id = true
does_not_name (some ids) id = not (contains ids id)

-- `ValidatedProjectPatch::ensure_creator_participates`
unfoldable pub ensure_creator_participates : ValidatedProjectPatch → ActorId → Validated (Unit {0})
ensure_creator_participates p creator_id =
    fail_if (drops p.silicon_ids creator_id && does_not_name p.carbon_ids creator_id)
      (validation_error "participants" (invalid "must retain the project creator"))

pub record Project : Type 0 where
  pub id : ProjectId
  pub name : RequiredText
  pub slug : ProjectSlug
  pub uid : ProjectUid
  pub status : ProjectStatus
  pub members : List Actor
  pub owner : Actor
  pub created_by : Actor
  pub created_at : Time
  pub updated_at : Time
  pub details : ProjectDetails
  pub collaborators : List ActorRef
  pub version : ℤ

-- `Project::has_member`
unfoldable pub has_member : Project → AccountUuid → Bool
has_member p account = any (λ (m : Actor). m.uuid == account) p.members
