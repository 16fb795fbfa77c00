-- ===== src/Examples/Projects.antt =====
-- A project under its use cases on concrete inputs (src/application/projects.rs,
-- src/application/projects/collaboration.rs, src/infrastructure/postgres/projects.rs).
use silicon_commit.Base.{
  ℕ, ◌≡◌, ◌⊎◌, refl, Bool, true, false, List, [], ◌∷◌, none, some, ok, err, pos, option_beq,
  if◌then◌else◌, list_eq, nat_eq, list_beq,
}
use silicon_commit.Text.{Text, chars}
use silicon_commit.Domain.Actor.{Actor, carbon, silicon, actor_type_beq}
use silicon_commit.Domain.Todo.Status.{yet_to_do}
use silicon_commit.Domain.Project.Status.{
  in_progress, completed, completion, project_status_eq, project_status_beq, entry_type_eq,
  entry_type_beq,
}
use silicon_commit.Domain.Project.Tasks.{ValidatedProjectEntryCreate}
use silicon_commit.Postgres.Projects.{
  ProjectRow, ParticipantRow, ProjectRows, EntryRow, DiaryRow, Circles, can_write, lock_project,
}
use silicon_commit.Postgres.Projects.Changes.{touch_project, add_member}
use silicon_commit.Postgres.Projects.Journal.{insert_entry, completion_exists}
use silicon_commit.Postgres.Projects.Tasks.{
  Work, TaskRow, fetch_task_by_id, update_row, set_assignee, insert_work_todo, sync_task, sync_todo,
}
use silicon_commit.Application.Authorization.{VerifiedActor, bearer}
use silicon_commit.Application.Projects.{authorize_locked_project, get_project, create_entry}
use silicon_commit.Application.Projects.Membership.{ensure_reachable}
use silicon_commit.Application.Projects.Access.{authorize_locked_project_outcomes, locked_of}
use silicon_commit.Application.Projects.Updates.{IsOwned}
use silicon_commit.Application.Projects.Lifecycle.{IsStatedOnce}
use silicon_commit.Application.Projects.Tasks.{assign_task, assign_found, claim_open, claim_task}
use silicon_commit.Application.Projects.Diaries.{
  Register, DiaryRequest, Shows, shows, serve_all, specified_all, serve_all_refines,
}
use silicon_commit.Application.Projects.Runs.{appended, claimed, ProjectRun, start, next}
use silicon_commit.Application.Projects.Runs.Invariants.{run-IsStatedOnce, run_final, run-IsOwned}
use silicon_commit.Error.{denied, not_found}

abbrev pub owner : Actor
owner = record { uuid = chars "own"; actor_type = carbon; id = chars "c:own" }

abbrev pub worker : Actor
worker = record { uuid = chars "wrk"; actor_type = silicon; id = chars "si:wrk" }

abbrev pub caller : Actor → VerifiedActor
caller a = record { actor = a; custodian = none; managed_silicons = []; grant = bearer none none }

-- The owner has the custody of the worker.
abbrev pub circles : Circles
circles = record {
  current_custodian = λ a. if list_beq a (chars "wrk") then some (chars "own") else none;
  in_circle = λ a b. false;
  may_reach = λ a b. true;
}

abbrev member : Actor → ParticipantRow
member a = record {
  participant_account = a.uuid;
  added_by_account = chars "own";
  added_at = 0;
  removed_by_account = none;
  removed_at = none;
}

abbrev project : ProjectRow
project = record {
  id = 1;
  name = chars "Plan";
  slug = chars "plan";
  uid = chars "plan:c:own:0";
  legacy_uid = none;
  status = in_progress;
  owner_account = chars "own";
  created_by_account = chars "own";
  description = [];
  attachments = [];
  private = true;
  created_at = 0;
  updated_at = 0;
  is_deleted = false;
}

abbrev diary : DiaryRow
diary = record {
  markdown = chars "first";
  version = pos 1;
  updated_by_account = chars "own";
  updated_at = 0;
}

abbrev pub rows : ProjectRows
rows = record {
  project = project;
  participants = member owner ∷ member worker ∷ [];
  diary = some diary;
  entries = [];
}

abbrev open_task : TaskRow
open_task = record {
  id = 5;
  parent_task_id = none;
  title = chars "Task";
  description = [];
  status = yet_to_do;
  created_by_account = chars "own";
  created_at = 0;
  updated_at = 0;
  assigned_to_account = none;
  todo_id = none;
  is_deleted = false;
}

abbrev pub work : Work
work = record { rows = rows; tasks = open_task ∷ []; todos = [] }

abbrev completing : ValidatedProjectEntryCreate
completing = record {
  entry_type = completion;
  title = chars "Done";
  description = [];
  status = none;
}

abbrev entry : EntryRow
entry = record {
  id = 9;
  entry_type = completion;
  title = chars "Done";
  description = [];
  blocker_status = none;
  created_by_account = chars "own";
  created_at = 4;
}

abbrev finished : ProjectRows
finished = record rows {
  project = record project { status = completed; updated_at = 4 };
  entries = entry ∷ [];
}

-- The owner states the completion of the project.
completion-accepted : create_entry circles (chars "own") 9 completing 4 rows ≡ ok (entry, finished)
unfolding create_entry insert_entry completion_exists touch_project authorize_locked_project
    lock_project can_write list_beq entry_type_beq project_status_beq
completion-accepted = refl

abbrev taken : TaskRow
taken = record open_task {
  assigned_to_account = some (chars "wrk");
  todo_id = some 7;
  updated_at = 2;
}

abbrev at_end : Work
at_end = record work { rows = finished }

completing_run : ProjectRun work at_end
completing_run =
    next start (appended circles (chars "own") 9 completing 4 entry finished completion-accepted)

rows-IsStatedOnce : IsStatedOnce rows
unfolding project_status_beq
rows-IsStatedOnce = refl

run-IsStatedOnce_example : IsStatedOnce finished
run-IsStatedOnce_example = run-IsStatedOnce completing_run rows-IsStatedOnce

rows-IsOwned : IsOwned rows
unfolding list_beq
rows-IsOwned = record { owner = refl; once = refl }

run-IsOwned_example : IsOwned finished
run-IsOwned_example = run-IsOwned completing_run rows-IsOwned

-- A task is claimed of a project that is completed.
abbrev finished_work : Work
finished_work = record work { rows = finished }

abbrev claim_at_end : Work
claim_at_end =
    set_assignee 5 (chars "wrk") 7 5
      (insert_work_todo 7 open_task (chars "wrk") (chars "wrk") 1 finished_work)

late_claim-accepted :
    claim_task circles (caller worker) 5 7 5 finished_work
    ≡ ok (record taken { updated_at = 5 }, claim_at_end)
unfolding claim_task claim_open assign_task assign_found set_assignee insert_work_todo sync_task
    sync_todo update_row fetch_task_by_id add_member ensure_reachable authorize_locked_project
    lock_project can_write list_beq option_beq actor_type_beq
late_claim-accepted = refl

run_final_example : claim_at_end.rows.project.status ≡ completed
run_final_example =
    run_final
      (next start (claimed circles (caller worker) 5 7 5 _ claim_at_end late_claim-accepted)) refl

abbrev Outcomes : Text → Type 0
Outcomes a =
    ((can_write circles a rows ≡ true)
      × (authorize_locked_project circles a rows ≡ ok (locked_of rows)))
    ⊎ ((can_write circles a rows ≡ false)
        × (get_project circles a rows ≡ ok rows)
        × (authorize_locked_project circles a rows ≡ err (denied "project_not_writable")))
    ⊎ ((get_project circles a rows ≡ err not_found)
        × (authorize_locked_project circles a rows ≡ err not_found))

authorize_locked_project_outcomes_example : Outcomes (chars "str")
authorize_locked_project_outcomes_example =
    authorize_locked_project_outcomes circles (chars "str") rows

abbrev request : ℕ → Text → DiaryRequest
request expected text = record {
  db = circles;
  actor = chars "own";
  expected = expected;
  command = record { markdown = text; word_count = 1 };
  now = 3;
}

-- Two requests name the same version.
abbrev requests : List DiaryRequest
requests = request 1 (chars "second") ∷ request 1 (chars "lost") ∷ []

abbrev register : Register
register = record { text = chars "first"; version = 1 }

abbrev registered : Register × List Bool
registered = specified_all (λ q. can_write q.db q.actor rows) register requests

serve_all_refines_example :
    Shows (serve_all rows requests).0 registered.0 × ((serve_all rows requests).1 ≡ registered.1)
serve_all_refines_example = serve_all_refines rows register requests (shows diary refl refl refl)
