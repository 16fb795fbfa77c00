-- ===== src/Postgres/Projects/Journal.antt =====
-- src/infrastructure/postgres/projects.rs: the statements on the diary and the entries of a project,
-- with the trigger on versions.
use silicon_commit.Base.{
  ◌+◌, Bool, ◌&&◌, ◌∷◌, Option, none, some, max, if◌then◌else◌, ◌==◌, list_eq, nat_eq, option_eq,
  any, ok, fail_if, ◌>>=◌, ◌>>◌, ok_or, ℤ, pos, negsuc, zero, suc, int_eq,
}
use silicon_commit.Domain.Ids.{AccountUuid, ProjectEntryId}
use silicon_commit.Domain.Todo.{Time}
use silicon_commit.Domain.Project.Status.{completed, project_status_eq, completion, entry_type_eq}
use silicon_commit.Domain.Project.Diary.{DiaryVersion, ValidatedDiaryUpdate}
use silicon_commit.Domain.Project.Tasks.{ValidatedProjectEntryCreate}
use silicon_commit.Error.{conflict, internal, Fallible}
use silicon_commit.Postgres.Projects.{DiaryRow, EntryRow, ProjectRows}
use silicon_commit.Postgres.Projects.Changes.{touch_project}

-- The version that the trigger of `project_diaries` writes, `OLD.version + 1`
abbrev pub succ_version : ℤ → ℤ
succ_version (pos n) = pos (n + 1)
succ_version (negsuc zero) = pos 0
succ_version (negsuc (suc n)) = negsuc n

abbrev pub replaced_diary :
    AccountUuid → DiaryVersion → ValidatedDiaryUpdate → Time → Option DiaryRow → Option DiaryRow
replaced_diary actor expected command now none = none
replaced_diary actor expected command now (some d) =
    if d.version == expected
    then some (record {
      markdown = command.markdown;
      version = succ_version d.version;
      updated_by_account = actor;
      updated_at = max d.updated_at now;
    })
    else none

-- `replace_diary`: the statement changes one row or none.
unfoldable pub replace_diary :
    AccountUuid
    → DiaryVersion
    → ValidatedDiaryUpdate
    → Time
    → ProjectRows
    → Fallible (DiaryRow × ProjectRows)
unfolding touch_project
replace_diary actor expected command now s = do
  d ← ok_or (replaced_diary actor expected command now s.diary) (conflict "diary_version_mismatch")
  ok (d, record s { project = touch_project now s.project; diary = some d })

unfoldable pub completion_exists : ProjectRows → Bool
completion_exists s = any (λ (e : EntryRow). e.entry_type == completion) s.entries

-- `insert_entry`, with the unique index on completions
unfoldable pub insert_entry :
    AccountUuid
    → ProjectEntryId
    → ValidatedProjectEntryCreate
    → Time
    → ProjectRows
    → Fallible (EntryRow × ProjectRows)
unfolding touch_project completion_exists
insert_entry actor entry_id command now s = do
  fail_if (command.entry_type == completion && completion_exists s) (internal "unique index")
  let entry : EntryRow = record {
    id = entry_id;
    entry_type = command.entry_type;
    title = command.title;
    description = command.description;
    blocker_status = command.status;
    created_by_account = actor;
    created_at = now;
  }
  let touched = touch_project now s.project
  ok (
    entry,
    record s {
      project =
          if command.entry_type == completion
          then record touched { status = completed }
          else touched;
      entries = entry ∷ s.entries;
    },
  )
