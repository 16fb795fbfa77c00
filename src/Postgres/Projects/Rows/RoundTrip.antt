-- ===== src/Postgres/Projects/Rows/RoundTrip.antt =====
-- An appended entry is read back from its row (src/infrastructure/postgres/projects.rs).
use silicon_commit.Base.{◌≡◌, Option, ok}
use silicon_commit.Text.{Text}
use silicon_commit.Domain.Ids.{AccountUuid, ProjectId, ProjectEntryId}
use silicon_commit.Domain.Actor.{Actor}
use silicon_commit.Domain.Todo.{Time}
use silicon_commit.Domain.Validation.{DomainLimits}
use silicon_commit.Domain.Validation.Laws.{IsStorable, IsNormal}
use silicon_commit.Domain.Project.Status.{ProjectEntryType, entry_type_eq, BlockerStatus}
use silicon_commit.Domain.Project.Tasks.{
  BlockerCreate, ProjectUpdateCreate, ProjectCompletionCreate, validate_blocker, validate_update,
  validate_completion, ProjectEntry, ValidatedProjectEntryCreate,
}
use silicon_commit.Postgres.Projects.{EntryRow}

-- A command that was validated may be stored.
record IsEntryCommand (limits : DomainLimits) (t : ProjectEntryType) (st : Option BlockerStatus)
    (c : ValidatedProjectEntryCreate) : Type 0 where
  entry_type : c.entry_type ≡ t
  status : c.status ≡ st
  title : IsNormal limits.title_chars c.title
  description : IsStorable limits.description_chars c.description

abbrev pub row_of : AccountUuid → ProjectEntryId → ValidatedProjectEntryCreate → Time → EntryRow
row_of actor id c now = record {
  id = id;
  entry_type = c.entry_type;
  title = c.title;
  description = c.description;
  blocker_status = c.status;
  created_by_account = actor;
  created_at = now;
}

abbrev pub entry_of : ProjectId → EntryRow → Actor → ProjectEntry
entry_of project_id e author = record {
  id = e.id;
  project_id = project_id;
  entry_type = e.entry_type;
  title = e.title;
  description = e.description;
  status = e.blocker_status;
  created_by = author;
  created_at = e.created_at;
}

-- The three commands that make an entry, each as it was accepted
pub data IsAccepted (limits : DomainLimits) (c : ValidatedProjectEntryCreate) : Type 0 where
  blocked : (request : BlockerCreate) → validate_blocker request limits ≡ ok c → IsAccepted limits c
  updated :
      (request : ProjectUpdateCreate) → validate_update request limits ≡ ok c → IsAccepted limits c
  ended :
      (request : ProjectCompletionCreate)
      → validate_completion request limits ≡ ok c
      → IsAccepted limits c
