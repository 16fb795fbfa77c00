-- ===== src/Postgres/Projects.antt =====
-- src/infrastructure/postgres/projects.rs: the rows of one project and the statements on them, with
-- the triggers of the migrations that they fire. `now` is `clock_timestamp()`. The accounts table is
-- the parameter `Circles`, what the database answers about custody.
pub mod Tasks
pub mod Rows
pub mod Journal
pub mod Changes
use silicon_commit.Base.{
  ℕ, ◌+◌, Bool, true, false, not, ◌&&◌, ◌||◌, List, [], ◌∷◌, ◌++◌, Option, none, some, max,
  if◌then◌else◌, ◌==◌, list_eq, nat_eq, option_eq, contains, any, map, Result, ok, err, fail_if,
  ◌>>=◌, ◌>>◌, ok_or, ℤ, pos, negsuc, zero, suc, int_eq,
}
use silicon_commit.Text.{Text}
use silicon_commit.Domain.Ids.{AccountUuid, ProjectId, ProjectEntryId}
use silicon_commit.Domain.Attachment.{AttachmentUrl}
use silicon_commit.Domain.Todo.{Time, is_some}
use silicon_commit.Domain.Validation.{RequiredText, LimitedText, validation_error, invalid}
use silicon_commit.Domain.Project.{ValidatedProjectPatch, ValidatedProjectCreate}
use silicon_commit.Domain.Project.Status.{
  ProjectStatus, completed, yet_to_start, project_status_eq, ProjectEntryType, completion,
  entry_type_eq, BlockerStatus,
}
use silicon_commit.Domain.Project.Slug.{ProjectSlug}
use silicon_commit.Domain.Project.Uid.{ProjectUid, ProjectLocator, id, uid}
use silicon_commit.Domain.Project.Diary.{DiaryVersion, ValidatedDiaryUpdate}
use silicon_commit.Domain.Project.Tasks.{ValidatedProjectEntryCreate}
use silicon_commit.Error.{AppError, conflict, internal, validation, Fallible}

-- A row of `commit.projects`
pub record ProjectRow : Type 0 where
  pub id : ProjectId
  pub name : Text
  pub slug : Text
  pub uid : Text
  pub legacy_uid : Option Text
  pub status : ProjectStatus
  pub owner_account : AccountUuid
  pub created_by_account : AccountUuid
  pub description : Text
  pub attachments : List AttachmentUrl
  pub private : Bool
  pub created_at : Time
  pub updated_at : Time
  pub is_deleted : Bool

-- A row of `commit.project_participants`
pub record ParticipantRow : Type 0 where
  pub participant_account : AccountUuid
  pub added_by_account : AccountUuid
  pub added_at : Time
  pub removed_by_account : Option AccountUuid
  pub removed_at : Option Time

-- A row of `commit.project_diaries`
pub record DiaryRow : Type 0 where
  pub markdown : Text
  pub version : ℤ
  pub updated_by_account : AccountUuid
  pub updated_at : Time

-- A row of `commit.project_entries`
pub record EntryRow : Type 0 where
  pub id : ProjectEntryId
  pub entry_type : ProjectEntryType
  pub title : Text
  pub description : Text
  pub blocker_status : Option BlockerStatus
  pub created_by_account : AccountUuid
  pub created_at : Time

-- The rows of one project
pub record ProjectRows : Type 0 where
  pub project : ProjectRow
  pub participants : List ParticipantRow
  pub diary : Option DiaryRow
  pub entries : List EntryRow

-- `commit.current_custodian`, `commit.in_circle` and `commit.may_reach`
pub record Circles : Type 0 where
  pub current_custodian : AccountUuid → Option AccountUuid
  pub in_circle : AccountUuid → AccountUuid → Bool
  pub may_reach : AccountUuid → AccountUuid → Bool

-- `removed_at IS NULL`
abbrev pub is_active : ParticipantRow → Bool
is_active m = not (is_some m.removed_at)

-- An active row of the account
abbrev pub is_member : AccountUuid → List ParticipantRow → Bool
is_member account [] = false
is_member account (m ∷ ms) =
    (is_active m && m.participant_account == account) || is_member account ms

-- `can_write`: `commit.project_writable`
unfoldable pub can_write : Circles → AccountUuid → ProjectRows → Bool
can_write db account s =
    not s.project.is_deleted
    && any
        (λ m.
          is_active m
          && (m.participant_account == account
              || db.current_custodian m.participant_account == some account))
        s.participants

-- `can_read`: `commit.project_access`
unfoldable pub can_read : Circles → AccountUuid → ProjectRows → Bool
unfolding can_write
can_read db account s =
    not s.project.is_deleted
    && (can_write db account s
        || (not s.project.private && db.in_circle s.project.owner_account account))

-- The first live row that passes a test
unfoldable pub first_live : (ProjectRow → Bool) → List ProjectRow → Option ProjectId
first_live test [] = none
first_live test (p ∷ ps) =
    let rest = first_live test ps in if test p && not p.is_deleted then some p.id else rest

abbrev pub or_else : {A : Type 0} → Option A → Option A → Option A
or_else none b = b
or_else (some a) b = some a

-- `find_project_id`: `ORDER BY (uid = $1) DESC` puts a row of the exact uid before a legacy one.
unfoldable pub find_project_id : ProjectLocator → List ProjectRow → Option ProjectId
unfolding first_live
find_project_id (id i) ps = first_live (λ p. p.id == i) ps
find_project_id (uid u) ps =
    or_else (first_live (λ p. p.uid == u) ps) (first_live (λ p. p.legacy_uid == some u) ps)

pub record LockedProject : Type 0 where
  pub id : ProjectId
  pub status : ProjectStatus
  pub owner : AccountUuid
  pub private : Bool

-- `lock_project` of a located project
unfoldable pub lock_project : ProjectRows → Option LockedProject
lock_project s =
    if s.project.is_deleted
    then none
    else some (record {
      id = s.project.id;
      status = s.project.status;
      owner = s.project.owner_account;
      private = s.project.private;
    })

-- `next_project_created_at`: `same` are the creation times of the creator's projects with the slug.
unfoldable pub next_project_created_at : Time → List Time → Time
next_project_created_at now [] = now
next_project_created_at now (t ∷ ts) = max (t + 1000000) (next_project_created_at now ts)
