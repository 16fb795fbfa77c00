-- ===== src/Application/Projects.antt =====
-- src/application/projects.rs: project use cases on the rows of the located project. The row of the
-- project is locked, so each use case is one step on these rows; an error rolls the transaction back
-- and leaves them as they were. Replays are those of `acquire_idempotency` and stand in Replays.
pub mod Tasks
pub mod Replays
pub mod Access
pub mod Members
pub mod Updates
pub mod Lifecycle
pub mod Runs
pub mod Seeds
pub mod Creation
pub mod Diaries
pub mod Membership
use silicon_commit.Base.{
  ℕ, Bool, true, false, not, ◌&&◌, ◌||◌, List, [], ◌∷◌, ◌++◌, Option, none, some, String,
  if◌then◌else◌, ltb, ◌==◌, ◌!=◌, list_eq, nat_eq, contains, any, map, is_empty, Result, ok, err,
  fail_if, map_err, ok_or, ◌>>=◌, ◌>>◌,
}
use silicon_commit.Text.{Text, trim, byte_len, is_control, eq_ignore_ascii_case}
use silicon_commit.Domain.Ids.{AccountUuid, ActorId, ProjectEntryId, Uuid}
use silicon_commit.Domain.Actor.{Actor, ActorType, carbon, silicon, actor_type_eq}
use silicon_commit.Domain.Todo.{Time, is_some}
use silicon_commit.Domain.Validation.{DomainLimits, validation_error, invalid}
use silicon_commit.Domain.Project.{ProjectPatch, ValidatedProjectPatch, validate_project_patch}
use silicon_commit.Domain.Project.Status.{
  ProjectStatus, completed, project_status_eq, ProjectEntryType, completion, entry_type_eq,
}
use silicon_commit.Domain.Project.Diary.{
  ExpectedDiaryVersion, ValidatedDiaryUpdate, validate_diary, diary_matches,
}
use silicon_commit.Domain.Project.Tasks.{ValidatedProjectEntryCreate}
use silicon_commit.Application.Authorization.{VerifiedActor}
use silicon_commit.Postgres.Projects.{
  ProjectRows, ParticipantRow, EntryRow, DiaryRow, Circles, LockedProject, lock_project, can_write,
  can_read, is_member, is_active,
}
use silicon_commit.Postgres.Projects.Changes.{update_project}
use silicon_commit.Postgres.Projects.Journal.{insert_entry, completion_exists, replace_diary}
use silicon_commit.Error.{
  AppError, conflict, denied, not_found, validation, internal, bad_request, Fallible,
}

unfoldable pub validate_request_id : Text → Fallible (Unit {0})
validate_request_id request_id =
    fail_if
      (is_empty request_id
        || ltb 255 (byte_len request_id)
        || trim request_id != request_id
        || any is_control request_id)
      (bad_request "invalid_request_id")

-- `get_project`: the rows of the located project, when the viewer can read it
unfoldable pub get_project : Circles → AccountUuid → ProjectRows → Fallible ProjectRows
get_project db viewer s = do
  fail_if (s.project.is_deleted || not (can_read db viewer s)) not_found
  ok s

-- The two answers to a caller who may not change the project
abbrev pub refusal : Circles → AccountUuid → ProjectRows → AppError
refusal db actor s = if can_read db actor s then denied "project_not_writable" else not_found

unfoldable pub authorize_locked_project :
    Circles → AccountUuid → ProjectRows → Fallible LockedProject
authorize_locked_project db actor s = do
  project ← ok_or (lock_project s) not_found
  fail_if (not (can_write db actor s)) (refusal db actor s)
  ok project

unfoldable pub ensure_project_remains_terminal :
    ProjectStatus → ValidatedProjectPatch → Fallible (Unit {0})
ensure_project_remains_terminal current_status command =
    fail_if (current_status == completed && is_some command.status)
      (conflict "project_already_completed")

-- `create_entry` where no response is stored
unfoldable pub create_entry :
    Circles
    → AccountUuid
    → ProjectEntryId
    → ValidatedProjectEntryCreate
    → Time
    → ProjectRows
    → Fallible (EntryRow × ProjectRows)
create_entry db actor entry_id command now s = do
  locked ← authorize_locked_project db actor s
  fail_if (command.entry_type == completion && (locked.status == completed || completion_exists s))
      (conflict "project_already_completed")
  insert_entry actor entry_id command now s

-- `get_diary`
unfoldable pub get_diary : Circles → AccountUuid → ProjectRows → Fallible DiaryRow
get_diary db viewer s = do
  seen ← get_project db viewer s
  ok_or seen.diary (internal "project exists without its required diary")

-- `replace_diary` of the use cases, from the validated command on
unfoldable pub replace_current_diary :
    Circles
    → AccountUuid
    → ExpectedDiaryVersion
    → ValidatedDiaryUpdate
    → Time
    → ProjectRows
    → Fallible (DiaryRow × ProjectRows)
replace_current_diary db actor expected command now s = do
  locked ← authorize_locked_project db actor s
  current ← ok_or s.diary (internal "project exists without its required diary")
  fail_if (not (diary_matches expected current.version)) (conflict "diary_version_mismatch")
  replace_diary actor current.version command now s

-- `ProjectService::replace_diary`
unfoldable pub replace_diary_request :
    (Text → ℕ)
    → Circles
    → AccountUuid
    → Text
    → Text
    → ExpectedDiaryVersion
    → Time
    → ProjectRows
    → Fallible (DiaryRow × ProjectRows)
unfolding replace_current_diary
replace_diary_request unicode_word_count db actor request_id markdown expected now s = do
  validate_request_id request_id
  command ← map_err validation (validate_diary unicode_word_count markdown)
  replace_current_diary db actor expected command now s
