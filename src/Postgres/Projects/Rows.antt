-- ===== src/Postgres/Projects/Rows.antt =====
-- src/infrastructure/postgres/projects.rs: the rows of the queries as domain values. A joined account
-- is its uuid, its kind and its id.
pub mod RoundTrip
use silicon_commit.Base.{
  ℕ, Bool, true, false, not, List, [], ◌∷◌, Option, none, some, map, if◌then◌else◌, Result, ok, err,
  fail_if, map_err, ◌>>=◌, ◌>>◌, ℤ,
}
use silicon_commit.Text.{Text}
use silicon_commit.Domain.Ids.{AccountUuid, ActorId, ProjectId, TodoId, account_uuid}
use silicon_commit.Domain.Actor.{Actor, ActorRef, ActorType, is_silicon}
use silicon_commit.Domain.Validation.{required_text, limited_text}
use silicon_commit.Domain.Project.{Project, ProjectDetails}
use silicon_commit.Domain.Project.Slug.{project_slug}
use silicon_commit.Domain.Project.Uid.{project_uid}
use silicon_commit.Domain.Project.Status.{
  ProjectEntryType, blocker, update, completion, BlockerStatus,
}
use silicon_commit.Domain.Project.Diary.{Diary, diary_version}
use silicon_commit.Domain.Project.Tasks.{ProjectTask, ProjectEntry}
use silicon_commit.Postgres.Projects.{ProjectRow, DiaryRow, EntryRow}
use silicon_commit.Postgres.Projects.Tasks.{TaskRow}
use silicon_commit.Error.{AppError, internal, Fallible}

abbrev pub persisted_project_name_chars : ℕ
persisted_project_name_chars = 200

abbrev pub persisted_title_chars : ℕ
persisted_title_chars = 500

abbrev pub persisted_description_chars : ℕ
persisted_description_chars = 100000

-- `invalid_row`
abbrev pub invalid_row : AppError
invalid_row = internal "invalid persisted project data"

-- The columns of a joined account
pub record AccountColumns : Type 0 where
  pub uuid : Text
  pub kind : ActorType
  pub public_id : Text

-- `account_uuid` of the accounts repository, and `actor_from_row`
unfoldable pub actor_from_row : AccountColumns → Fallible Actor
actor_from_row a = do
  uuid ← map_err (λ _. internal "invalid persisted account uuid") (account_uuid a.uuid)
  ok (record { uuid = uuid; actor_type = a.kind; id = a.public_id })

-- The columns of `PROJECT_SELECT` beside those of the project
pub record ProjectJoins : Type 0 where
  pub owner : AccountColumns
  pub creator : AccountColumns
  pub members : List ActorRef
  pub collaborators : List ActorRef
  pub version : ℤ

-- `Actor::new` of a reference
abbrev pub actor_of_ref : ActorRef → Actor
actor_of_ref r = record { uuid = r.uuid; actor_type = r.actor_type; id = r.id }

-- The ids of the members that are no Silicons
unfoldable pub carbon_ids_of : List Actor → List ActorId
carbon_ids_of [] = []
carbon_ids_of (m ∷ ms) = if not (is_silicon m) then m.id ∷ carbon_ids_of ms else carbon_ids_of ms

-- `ProjectRow::into_domain`
unfoldable pub project_into_domain : ProjectRow → ProjectJoins → Fallible Project
unfolding actor_from_row carbon_ids_of
project_into_domain p j = do
  let members = map actor_of_ref j.members
  name ← map_err (λ _. invalid_row) (required_text "name" p.name persisted_project_name_chars)
  slug ← map_err (λ _. invalid_row) (project_slug p.slug)
  uid ← map_err (λ _. invalid_row) (project_uid p.uid)
  owner ← actor_from_row j.owner
  creator ← actor_from_row j.creator
  let details : ProjectDetails = record {
    description = p.description;
    attachments = p.attachments;
    private = p.private;
    carbon_ids = carbon_ids_of members;
  }
  ok (record {
    id = p.id;
    name = name;
    slug = slug;
    uid = uid;
    status = p.status;
    members = members;
    owner = owner;
    created_by = creator;
    created_at = p.created_at;
    updated_at = p.updated_at;
    details = details;
    collaborators = j.collaborators;
    version = j.version;
  })

-- `DiaryRow::into_domain`
unfoldable pub diary_into_domain : ProjectId → DiaryRow → AccountColumns → Fallible Diary
unfolding actor_from_row
diary_into_domain project_id d editor = do
  version ← map_err (λ _. invalid_row) (diary_version d.version)
  updated_by ← actor_from_row editor
  ok (record {
    project_id = project_id;
    markdown = d.markdown;
    version = version;
    updated_by = updated_by;
    updated_at = d.updated_at;
  })

-- `ProjectTaskRow::into_domain`
unfoldable pub task_into_domain :
    ProjectId → TaskRow → AccountColumns → Option ActorRef → Fallible ProjectTask
unfolding actor_from_row
task_into_domain project_id t author assigned_to = do
  title ← map_err (λ _. invalid_row) (required_text "title" t.title persisted_title_chars)
  description ←
      map_err (λ _. invalid_row)
        (limited_text "description" t.description persisted_description_chars)
  created_by ← actor_from_row author
  ok (record {
    id = t.id;
    project_id = project_id;
    parent_task_id = t.parent_task_id;
    title = title;
    description = description;
    status = t.status;
    created_by = created_by;
    created_at = t.created_at;
    assigned_to = assigned_to;
    todo_id = t.todo_id;
  })

-- `valid_status` of `ProjectEntryRow::into_domain`
unfoldable pub is_valid_blocker_status : ProjectEntryType → Option BlockerStatus → Bool
is_valid_blocker_status blocker (some _) = true
is_valid_blocker_status blocker none = false
is_valid_blocker_status update none = true
is_valid_blocker_status update (some _) = false
is_valid_blocker_status completion none = true
is_valid_blocker_status completion (some _) = false

-- `ProjectEntryRow::into_domain`
unfoldable pub entry_into_domain : ProjectId → EntryRow → AccountColumns → Fallible ProjectEntry
unfolding actor_from_row is_valid_blocker_status
entry_into_domain project_id e author = do
  fail_if (not (is_valid_blocker_status e.entry_type e.blocker_status)) invalid_row
  title ← map_err (λ _. invalid_row) (required_text "title" e.title persisted_title_chars)
  description ←
      map_err (λ _. invalid_row)
        (limited_text "description" e.description persisted_description_chars)
  created_by ← actor_from_row author
  ok (record {
    id = e.id;
    project_id = project_id;
    entry_type = e.entry_type;
    title = title;
    description = description;
    status = e.blocker_status;
    created_by = created_by;
    created_at = e.created_at;
  })
