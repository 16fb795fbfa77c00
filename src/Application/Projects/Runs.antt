-- ===== src/Application/Projects/Runs.antt =====
-- The use cases on one project as steps on its rows, in any order and by any callers.
pub mod Invariants
use silicon_commit.Base.{
  ℕ, ◌≡◌, refl, sym, ap, ◌∙◌, Bool, true, false, not, ◌&&◌, ◌||◌, List, [], Option, none, some, ok,
  subst, ◌==◌, list_eq, nat_eq,
}
use silicon_commit.Text.{Text}
use silicon_commit.Domain.Ids.{AccountUuid, ProjectTaskId, TodoId, ProjectEntryId}
use silicon_commit.Domain.Actor.{Actor}
use silicon_commit.Domain.Todo.{Time}
use silicon_commit.Domain.Validation.{DomainLimits}
use silicon_commit.Domain.Project.{ProjectPatch}
use silicon_commit.Domain.Project.Status.{completed, project_status_eq, project_status_beq_iff}
use silicon_commit.Domain.Project.Diary.{ExpectedDiaryVersion, ValidatedDiaryUpdate}
use silicon_commit.Domain.Project.Tasks.{
  ValidatedProjectEntryCreate, ValidatedProjectTaskCreate, ValidatedProjectTaskPatch,
}
use silicon_commit.Postgres.Projects.{Circles, ProjectRows, EntryRow, DiaryRow}
use silicon_commit.Postgres.Projects.Tasks.{Work, TaskRow}
use silicon_commit.Application.Authorization.{VerifiedActor}
use silicon_commit.Application.Projects.{create_entry, replace_current_diary}
use silicon_commit.Application.Projects.Membership.{Directory, update_request}
use silicon_commit.Application.Projects.Tasks.{
  DirectoryOfOne, claim_task, create_task, patch_project_task,
}

-- A use case that succeeded; one that fails leaves the rows as they are.
pub data ProjectStep (w : Work) : Work → Type 0 where
  updated :
      (directory : Directory) (db : Circles) (actor : VerifiedActor) (limits : DomainLimits)
      (request_id : Text) (snapshot : ProjectRows) (shown : List Actor) (request : ProjectPatch)
      (now : Time) (rows : ProjectRows)
      → update_request directory db actor limits request_id snapshot shown request now w.rows
        ≡ ok rows
      → ProjectStep w (record w { rows = rows })
  appended :
      (db : Circles) (actor : AccountUuid) (id : ProjectEntryId)
      (command : ValidatedProjectEntryCreate) (now : Time) (entry : EntryRow) (rows : ProjectRows)
      → create_entry db actor id command now w.rows ≡ ok (entry, rows)
      → ProjectStep w (record w { rows = rows })
  rewritten :
      (db : Circles) (actor : AccountUuid) (expected : ExpectedDiaryVersion)
      (command : ValidatedDiaryUpdate) (now : Time) (diary : DiaryRow) (rows : ProjectRows)
      → replace_current_diary db actor expected command now w.rows ≡ ok (diary, rows)
      → ProjectStep w (record w { rows = rows })
  created :
      (db : Circles) (actor : AccountUuid) (task_id : ProjectTaskId) (fresh : TodoId) (now : Time)
      (command : ValidatedProjectTaskCreate) (assignee : Option Actor) (task : TaskRow) (w' : Work)
      → create_task db actor task_id fresh now command assignee w ≡ ok (task, w')
      → ProjectStep w w'
  patched :
      (directory : DirectoryOfOne) (db : Circles) (actor : VerifiedActor) (task_id : ProjectTaskId)
      (fresh : TodoId) (now : Time) (command : ValidatedProjectTaskPatch) (task : TaskRow)
      (w' : Work)
      → patch_project_task directory db actor task_id fresh now command w ≡ ok (task, w')
      → ProjectStep w w'
  claimed :
      (db : Circles) (actor : VerifiedActor) (task_id : ProjectTaskId) (fresh : TodoId) (now : Time)
      (task : TaskRow) (w' : Work)
      → claim_task db actor task_id fresh now w ≡ ok (task, w')
      → ProjectStep w w'

pub data ProjectRun (w : Work) : Work → Type 0 where
  start : ProjectRun w w
  next : {v u : Work} → ProjectRun w v → ProjectStep v u → ProjectRun w u
