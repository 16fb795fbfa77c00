-- ===== src/Application/Projects/Tasks/Keeps.antt =====
-- What the use cases on tasks leave of the project: they may add a member, and touch its time.
use silicon_commit.Base.{
  ◌≡◌, refl, sym, ap, ◌∙◌, List, Option, none, some, ok, bind-ok, ok_or, ok_or-ok, ok_inj, subst,
  fail_if, arith,
}
use silicon_commit.Domain.Ids.{AccountUuid, ProjectTaskId, TodoId}
use silicon_commit.Domain.Actor.{Actor}
use silicon_commit.Domain.Todo.{Time, is_some}
use silicon_commit.Domain.Project.Tasks.{ValidatedProjectTaskCreate, ValidatedProjectTaskPatch}
use silicon_commit.Application.Authorization.{VerifiedActor}
use silicon_commit.Application.Projects.{authorize_locked_project}
use silicon_commit.Application.Projects.Tasks.{
  DirectoryOfOne, assign_found, assign_task, claim_task, claim_open, create_task, ensure_parent,
  assign_new, assignment_of, assign_patched, patch_project_task,
}
use silicon_commit.Application.Projects.Tasks.Claims.{assign_task-IsAssignment}
use silicon_commit.Postgres.Projects.{Circles, ProjectRows, ParticipantRow}
use silicon_commit.Postgres.Projects.Changes.{add_member, touch_project}
use silicon_commit.Postgres.Projects.Tasks.{
  Work, TaskRow, fetch_task_by_id, insert_task, update_task, set_assignee, clear_assignee,
  soft_delete_detached, update_row, patch_task, sync_task,
}
use silicon_commit.Error.{not_found, Fallible}

pub data MemberStep (ms : List ParticipantRow) : List ParticipantRow → Type 0 where
  same : MemberStep ms ms
  added : (actor member : AccountUuid) (now : Time) → MemberStep ms (add_member actor member now ms)

pub record TaskKeeps (r r' : ProjectRows) : Type 0 where
  pub status : r'.project.status ≡ r.project.status
  pub owner : r'.project.owner_account ≡ r.project.owner_account
  pub entries : r'.entries ≡ r.entries
  pub diary : r'.diary ≡ r.diary
  pub members : MemberStep r.participants r'.participants

TaskKeeps-refl : (r : ProjectRows) → TaskKeeps r r
TaskKeeps-refl r = record {
  status = refl;
  owner = refl;
  entries = refl;
  diary = refl;
  members = same;
}

soft_delete_detached-rows :
    (id : TodoId) (actor : AccountUuid) (w : Work) {w' : Work}
    → soft_delete_detached id actor w ≡ ok w'
    → w'.rows ≡ w.rows
unfolding soft_delete_detached
soft_delete_detached-rows id actor w h = ground arith

unassigned :
    (db : Circles) (actor : AccountUuid) (task_id : ProjectTaskId) (fresh : TodoId) (now : Time)
    (task : TaskRow) (w : Work) {w' : Work}
    → assign_found db actor task_id fresh now none task w ≡ ok w'
    → w'.rows ≡ w.rows
unfolding assign_found clear_assignee
unassigned db actor task_id fresh now task w {w'} h = by_todo task.todo_id h
  where
    by_todo :
        (o : Option TodoId)
        → ◌≡◌ {A = Fallible Work}
            (elim o [
              | none ↦ ok (clear_assignee task_id now w)
              | some id ↦ soft_delete_detached id actor (clear_assignee task_id now w)
            ])
            (ok w')
        → w'.rows ≡ w.rows
    by_todo none k = ap (λ (v : Work). v.rows) (sym (ok_inj _ w' k))
    by_todo (some id) k = soft_delete_detached-rows id actor (clear_assignee task_id now w) k

pub assign_task-TaskKeeps :
    (db : Circles) (actor : AccountUuid) (task_id : ProjectTaskId) (fresh : TodoId) (now : Time)
    (assignee : Option Actor) (w : Work) {w' : Work}
    → assign_task db actor task_id fresh now assignee w ≡ ok w'
    → TaskKeeps w.rows w'.rows
unfolding assign_task set_assignee
assign_task-TaskKeeps db actor task_id fresh now (some a) w {w'} h =
    let i = assign_task-IsAssignment db actor task_id fresh now a w h in
    subst (TaskKeeps w.rows) (sym (ap (λ (v : Work). v.rows) i.result ∙ i.rows)) (record {
      status = refl;
      owner = refl;
      entries = refl;
      diary = refl;
      members = added actor a.uuid now;
    })
assign_task-TaskKeeps db actor task_id fresh now none w {w'} h =
    let (task, _, k) = bind-ok (ok_or (fetch_task_by_id task_id w.tasks) not_found) _ h in
    subst (TaskKeeps w.rows) (sym (unassigned db actor task_id fresh now task w k))
      (TaskKeeps-refl w.rows)

-- A touch of the project's time is kept as well.
touched_before :
    (now : Time) (r r' : ProjectRows)
    → TaskKeeps (record r { project = touch_project now r.project }) r'
    → TaskKeeps r r'
unfolding touch_project
touched_before now r r' k = record {
  status = k.status;
  owner = k.owner;
  entries = k.entries;
  diary = k.diary;
  members = k.members;
}

touched_after :
    (now : Time) (r r' : ProjectRows)
    → TaskKeeps r r'
    → TaskKeeps r (record r' { project = touch_project now r'.project })
unfolding touch_project
touched_after now r r' k = record {
  status = k.status;
  owner = k.owner;
  entries = k.entries;
  diary = k.diary;
  members = k.members;
}

pub claim_task-TaskKeeps :
    (db : Circles) (actor : VerifiedActor) (task_id : ProjectTaskId) (fresh : TodoId) (now : Time)
    (w : Work) {t : TaskRow} {w' : Work}
    → claim_task db actor task_id fresh now w ≡ ok (t, w')
    → TaskKeeps w.rows w'.rows
unfolding claim_task claim_open
claim_task-TaskKeeps db actor task_id fresh now w {t} {w'} h =
    let me = actor.actor.uuid in
    let (_, _, h₁) = bind-ok (authorize_locked_project db me w.rows) _ h in
    let (task, _, h₂) = bind-ok (ok_or (fetch_task_by_id task_id w.tasks) not_found) _ h₁ in
    let (_, _, h₃) = bind-ok (fail_if (is_some task.assigned_to_account) _) _ h₂ in
    let (after, assigned, h₄) =
      bind-ok (assign_task db me task_id fresh now (some actor.actor) w) _ h₃ in
    let (claimed, _, h₅) = bind-ok (ok_or (fetch_task_by_id task_id after.tasks) not_found) _ h₄ in
    subst (λ (p : TaskRow × Work). TaskKeeps w.rows p.1.rows) (ok_inj _ (t, w') h₅)
      (assign_task-TaskKeeps db me task_id fresh now (some actor.actor) w assigned)

assign_new-TaskKeeps :
    (db : Circles) (actor : AccountUuid) (task_id : ProjectTaskId) (fresh : TodoId) (now : Time)
    (assignee : Option Actor) (w : Work) {w' : Work}
    → assign_new db actor task_id fresh now assignee w ≡ ok w'
    → TaskKeeps w.rows w'.rows
assign_new-TaskKeeps db actor task_id fresh now none w {w'} k =
    subst (λ (u : Work). TaskKeeps w.rows u.rows) (ok_inj w w' k) (TaskKeeps-refl w.rows)
assign_new-TaskKeeps db actor task_id fresh now (some a) w k =
    assign_task-TaskKeeps db actor task_id fresh now (some a) w k

-- A new task and its assignment
pub inserted-TaskKeeps :
    (db : Circles) (actor : AccountUuid) (task_id : ProjectTaskId) (fresh : TodoId) (now : Time)
    (command : ValidatedProjectTaskCreate) (assignee : Option Actor) (w : Work) {w' : Work}
    → assign_new db actor task_id fresh now assignee (insert_task actor task_id command now w)
      ≡ ok w'
    → TaskKeeps w.rows w'.rows
unfolding insert_task
inserted-TaskKeeps db actor task_id fresh now command assignee w {w'} k =
    touched_before now w.rows w'.rows (
      assign_new-TaskKeeps db actor task_id fresh now assignee
        (insert_task actor task_id command now w) k)

pub create_task-TaskKeeps :
    (db : Circles) (actor : AccountUuid) (task_id : ProjectTaskId) (fresh : TodoId) (now : Time)
    (command : ValidatedProjectTaskCreate) (assignee : Option Actor) (w : Work) {t : TaskRow}
    {w' : Work}
    → create_task db actor task_id fresh now command assignee w ≡ ok (t, w')
    → TaskKeeps w.rows w'.rows
unfolding create_task
create_task-TaskKeeps db actor task_id fresh now command assignee w {t} {w'} h =
    let inserted = insert_task actor task_id command now w in
    let (_, _, h₁) = bind-ok (authorize_locked_project db actor w.rows) _ h in
    let (_, _, h₂) = bind-ok (ensure_parent command.parent_task_id w.tasks) _ h₁ in
    let (after, assigned, h₃) =
      bind-ok (assign_new db actor task_id fresh now assignee inserted) _ h₂ in
    let (task, _, h₄) = bind-ok (ok_or (fetch_task_by_id task_id after.tasks) not_found) _ h₃ in
    subst (λ (p : TaskRow × Work). TaskKeeps w.rows p.1.rows) (ok_inj _ (t, w') h₄)
      (inserted-TaskKeeps db actor task_id fresh now command assignee w assigned)

-- The rows after `update_task`
update_task-rows :
    (task_id : ProjectTaskId) (command : ValidatedProjectTaskPatch) (now : Time) (w : Work)
    {w' : Work}
    → update_task task_id command now w ≡ some w'
    → w'.rows ≡ record w.rows { project = touch_project now w.rows.project }
unfolding update_task
update_task-rows task_id command now w {w'} h = by_task (fetch_task_by_id task_id w.tasks) h
  where
    rows_of : Option Work → ProjectRows
    rows_of none = w.rows
    rows_of (some v) = v.rows

    by_task :
        (o : Option TaskRow)
        → ◌≡◌ {A = Option Work}
            (elim o [
              | none ↦ none
              | some before ↦ some (record w {
                rows = record w.rows { project = touch_project now w.rows.project };
                tasks = update_row task_id (patch_task command now) w.tasks;
                todos =
                    sync_task
                      (fetch_task_by_id task_id
                        (update_row task_id (patch_task command now) w.tasks))
                      w.todos;
              })
            ])
            (some w')
        → w'.rows ≡ record w.rows { project = touch_project now w.rows.project }
    by_task none k = absurd (cc k)
    by_task (some before) k = sym (ap rows_of k)

assign_patched-TaskKeeps :
    (db : Circles) (actor : AccountUuid) (task_id : ProjectTaskId) (fresh : TodoId) (now : Time)
    (o : Option (Option Actor)) (w : Work) {w' : Work}
    → assign_patched db actor task_id fresh now o w ≡ ok w'
    → TaskKeeps w.rows w'.rows
assign_patched-TaskKeeps db actor task_id fresh now none w {w'} h =
    subst (λ (v : Work). TaskKeeps w.rows v.rows) (ok_inj w w' h) (TaskKeeps-refl w.rows)
assign_patched-TaskKeeps db actor task_id fresh now (some o) w h =
    assign_task-TaskKeeps db actor task_id fresh now o w h

pub patch_project_task-TaskKeeps :
    (directory : DirectoryOfOne) (db : Circles) (actor : VerifiedActor) (task_id : ProjectTaskId)
    (fresh : TodoId) (now : Time) (command : ValidatedProjectTaskPatch) (w : Work) {t : TaskRow}
    {w' : Work}
    → patch_project_task directory db actor task_id fresh now command w ≡ ok (t, w')
    → TaskKeeps w.rows w'.rows
unfolding patch_project_task
patch_project_task-TaskKeeps directory db actor task_id fresh now command w {t} {w'} h =
    let me = actor.actor.uuid in
    let (assignment, _, h₁) = bind-ok (assignment_of directory actor command.assigned_to) _ h in
    let (_, _, h₂) = bind-ok (authorize_locked_project db me w.rows) _ h₁ in
    let (_, _, h₃) = bind-ok (ok_or (fetch_task_by_id task_id w.tasks) not_found) _ h₂ in
    let (w₁, assigned, h₄) = bind-ok (assign_patched db me task_id fresh now assignment w) _ h₃ in
    let (w₂, updated, h₅) = bind-ok (ok_or (update_task task_id command now w₁) not_found) _ h₄ in
    let (_, _, h₆) = bind-ok (ok_or (fetch_task_by_id task_id w₂.tasks) not_found) _ h₅ in
    let rows = update_task-rows task_id command now w₁ (ok_or-ok _ not_found updated) in
    subst (λ (p : TaskRow × Work). TaskKeeps w.rows p.1.rows) (ok_inj _ (t, w') h₆)
      (subst (TaskKeeps w.rows) (sym rows) (
        touched_after now w.rows w₁.rows
          (assign_patched-TaskKeeps db me task_id fresh now assignment w assigned)))
