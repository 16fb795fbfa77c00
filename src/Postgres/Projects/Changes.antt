-- ===== src/Postgres/Projects/Changes.antt =====
-- src/infrastructure/postgres/projects.rs: the statements that make a project and change its data and
-- its members.
use silicon_commit.Base.{
  Bool, false, not, ◌&&◌, List, [], ◌∷◌, ◌++◌, Option, none, some, max, if◌then◌else◌, ◌==◌,
  list_eq, nat_eq, option_eq, contains, ok, fail_if, ◌>>◌, pos, int_eq,
}
use silicon_commit.Domain.Ids.{AccountUuid, ProjectId}
use silicon_commit.Domain.Todo.{Time, is_some}
use silicon_commit.Domain.Validation.{validation_error, invalid}
use silicon_commit.Domain.Project.{ValidatedProjectPatch, ValidatedProjectCreate}
use silicon_commit.Domain.Project.Status.{completed, yet_to_start, project_status_eq, entry_type_eq}
use silicon_commit.Domain.Project.Uid.{ProjectUid}
use silicon_commit.Error.{conflict, validation, Fallible}
use silicon_commit.Postgres.Projects.{
  ProjectRow, ParticipantRow, ProjectRows, is_active, is_member, LockedProject,
}

-- `add_member`
unfoldable pub add_member :
    AccountUuid → AccountUuid → Time → List ParticipantRow → List ParticipantRow
add_member actor member now ms =
    if is_member member ms
    then ms
    else ms
      ++ record {
        participant_account = member;
        added_by_account = actor;
        added_at = now;
        removed_by_account = none;
        removed_at = none;
      }
        ∷ []

unfoldable pub insert_missing_members :
    AccountUuid → List AccountUuid → Time → List ParticipantRow → List ParticipantRow
insert_missing_members actor [] now ms = ms
insert_missing_members actor (a ∷ as') now ms =
    insert_missing_members actor as' now (add_member actor a now ms)

-- The `UPDATE` that closes the rows of accounts that are not listed
unfoldable pub close_unlisted :
    AccountUuid → List AccountUuid → Time → List ParticipantRow → List ParticipantRow
close_unlisted actor accounts now [] = []
close_unlisted actor accounts now (m ∷ ms) =
    let rest = close_unlisted actor accounts now ms in
    if is_active m && not (contains accounts m.participant_account)
    then record m { removed_by_account = some actor; removed_at = some (max m.added_at now) } ∷ rest
    else m ∷ rest

-- `insert_project`, with the trigger that gives each project its first diary
unfoldable pub insert_project :
    AccountUuid
    → ProjectId
    → ValidatedProjectCreate
    → ProjectUid
    → Time
    → Time
    → List AccountUuid
    → ProjectRows
insert_project actor project_id command project_uid created_at now members = record {
  project = record {
    id = project_id;
    name = command.name;
    slug = command.slug;
    uid = project_uid;
    legacy_uid = none;
    status = yet_to_start;
    owner_account = actor;
    created_by_account = actor;
    description = command.details.description;
    attachments = command.details.attachments;
    private = command.details.private;
    created_at = created_at;
    updated_at = created_at;
    is_deleted = false;
  };
  participants = insert_missing_members actor members now [];
  diary = some (record {
    markdown = [];
    version = pos 1;
    updated_by_account = actor;
    updated_at = created_at;
  });
  entries = [];
}

-- `coalesce($n, column)`
abbrev pub coalesce : {A : Type 0} → Option A → A → A
coalesce none old = old
coalesce (some new) old = new

-- `touch_project`
unfoldable pub touch_project : Time → ProjectRow → ProjectRow
touch_project now p = record p { updated_at = max p.updated_at now }

-- The `UPDATE` of `update_project`
unfoldable pub patch_row : ValidatedProjectPatch → Time → ProjectRow → ProjectRow
patch_row command now p = record p {
  name = coalesce command.name p.name;
  status = coalesce command.status p.status;
  description = coalesce command.description p.description;
  attachments = coalesce command.attachments p.attachments;
  private = coalesce command.private p.private;
  updated_at = max p.updated_at now;
}

-- `members.is_some_and(|members| !members.contains(owner))`
abbrev pub omits : Option (List AccountUuid) → AccountUuid → Bool
omits none owner = false
omits (some members) owner = not (contains members owner)

abbrev pub replaced_members :
    AccountUuid → Option (List AccountUuid) → Time → List ParticipantRow → List ParticipantRow
replaced_members actor none now ms = ms
replaced_members actor (some accounts) now ms =
    insert_missing_members actor accounts now (close_unlisted actor accounts now ms)

-- `update_project`; the members are given by their accounts.
unfoldable pub update_project :
    AccountUuid
    → LockedProject
    → ValidatedProjectPatch
    → Option (List AccountUuid)
    → Time
    → ProjectRows
    → Fallible ProjectRows
unfolding patch_row
update_project actor locked command members now s = do
  fail_if (locked.status == completed && is_some command.status)
      (conflict "project_already_completed")
  fail_if (omits members locked.owner)
      (validation (validation_error "participants" (invalid "must retain the project owner")))
  ok (record s {
    project = patch_row command now s.project;
    participants = replaced_members actor members now s.participants;
  })
