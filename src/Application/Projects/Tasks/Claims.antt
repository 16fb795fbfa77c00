-- ===== src/Application/Projects/Tasks/Claims.antt =====
-- A claim is exclusive (src/application/projects/collaboration.rs).
use silicon_commit.Base.{
  ◌≡◌, refl, sym, ap, ◌∙◌, Bool, true, false, List, [], ◌∷◌, Option, none, some, ok, bind-ok,
  fail_if, fail_if-ok, ok_or, ok_or-ok, ok_inj, arith, Bool-cases, inl, inr, if◌then◌else◌,
  beq_refl, list_eq, nat_eq, subst,
}
use silicon_commit.Domain.Ids.{AccountUuid, ProjectTaskId, TodoId}
use silicon_commit.Domain.Actor.{Actor}
use silicon_commit.Domain.Todo.{Time, is_some}
use silicon_commit.Application.Authorization.{VerifiedActor}
use silicon_commit.Application.Projects.Membership.{ensure_reachable}
use silicon_commit.Application.Projects.Members.{is_member-add_member}
use silicon_commit.Application.Projects.Tasks.{
  assign_found, assign_task, claim_open, with_todo, with_member,
}
use silicon_commit.Postgres.Projects.{Circles, ProjectRows, is_member}
use silicon_commit.Postgres.Projects.Tasks.{
  Work, TaskRow, fetch_task_by_id, update_row, is_task, set_assignee, insert_work_todo,
}
use silicon_commit.Error.{not_found}

-- What is read of a row after an `UPDATE` of it that keeps its id and leaves it live.
fetch-update_row :
    (id : ProjectTaskId) (f : TaskRow → TaskRow) (ts : List TaskRow) {t : TaskRow}
    → ((r : TaskRow) → is_task id (f r) ≡ is_task id r)
    → fetch_task_by_id id ts ≡ some t
    → fetch_task_by_id id (update_row id f ts) ≡ some (f t)
unfolding fetch_task_by_id update_row
fetch-update_row id f [] k h = absurd (cc h)
fetch-update_row id f (r ∷ ts) {t} k h = elim (Bool-cases (is_task id r)) [
  | inl here ↦
      let found : some r ≡ some t =
        subst (λ b. (if b then some r else fetch_task_by_id id ts) ≡ some t) here h in
      let same : r ≡ t = cc found in rw here (rw (k r ∙ here) (ap (λ x. some (f x)) same))
  | inr there ↦
      let rest : fetch_task_by_id id ts ≡ some t =
        subst (λ b. (if b then some r else fetch_task_by_id id ts) ≡ some t) there h in
      rw there (rw there (fetch-update_row id f ts k rest))
]

-- What a claim leaves: the task is the claimer's and has a todo, and the claimer is a member.
pub record IsClaimed (claimer : AccountUuid) (task_id : ProjectTaskId) (t : TaskRow) (w : Work)
    : Type 0 where
  pub stored : fetch_task_by_id task_id w.tasks ≡ some t
  pub assigned : t.assigned_to_account ≡ some claimer
  pub linked : is_some t.todo_id ≡ true
  pub member : is_member claimer w.rows.participants ≡ true

set_assignee-IsClaimed :
    (task_id : ProjectTaskId) (claimer : AccountUuid) (todo_id : TodoId) (now : Time) (w : Work)
    (before t : TaskRow)
    → fetch_task_by_id task_id w.tasks ≡ some before
    → is_member claimer w.rows.participants ≡ true
    → fetch_task_by_id task_id (set_assignee task_id claimer todo_id now w).tasks ≡ some t
    → IsClaimed claimer task_id t (set_assignee task_id claimer todo_id now w)
unfolding set_assignee
set_assignee-IsClaimed task_id claimer todo_id now w before t found member stored =
    let after = fetch-update_row task_id _ w.tasks (λ r. refl) found in
    let same = sym after ∙ stored in
    record {
      stored = stored;
      assigned = sym (ap assignee same) ∙ refl;
      linked = sym (ap linked same) ∙ refl;
      member = member;
    }
  where
    assignee : Option TaskRow → Option AccountUuid
    assignee none = none
    assignee (some r) = r.assigned_to_account

    linked : Option TaskRow → Bool
    linked none = false
    linked (some r) = is_some r.todo_id

with_todo_keeps :
    (actor : AccountUuid) (assignee : Actor) (task : TaskRow) (fresh : TodoId) (w : Work)
    → ((with_todo actor assignee task fresh w).1.tasks ≡ w.tasks)
      × ((with_todo actor assignee task fresh w).1.rows ≡ w.rows)
unfolding insert_work_todo
with_todo_keeps actor assignee task fresh w = by_todo task.todo_id
  where
    by_todo :
        (o : Option TodoId)
        → let made : TodoId × Work = elim o [
          | some id ↦ (id, w)
          | none ↦ (fresh, insert_work_todo fresh task actor assignee.uuid w.rows.project.id w)
        ] in
          (made.1.tasks ≡ w.tasks) × (made.1.rows ≡ w.rows)
    by_todo none = (refl, refl)
    by_todo (some id) = (refl, refl)

-- What an assignment to an account does.
pub record IsAssignment (actor : AccountUuid) (task_id : ProjectTaskId) (now : Time) (a : Actor)
    (w w' : Work) : Type 0 where
  pub before : TaskRow
  pub found : fetch_task_by_id task_id w.tasks ≡ some before
  pub todo_id : TodoId
  pub made : Work
  pub result : w' ≡ set_assignee task_id a.uuid todo_id now made
  pub tasks : made.tasks ≡ w.tasks
  pub rows : made.rows ≡ (with_member actor a.uuid now w).rows

pub assign_task-IsAssignment :
    (db : Circles) (actor : AccountUuid) (task_id : ProjectTaskId) (fresh : TodoId) (now : Time)
    (a : Actor) (w : Work) {w' : Work}
    → assign_task db actor task_id fresh now (some a) w ≡ ok w'
    → IsAssignment actor task_id now a w w'
unfolding assign_task assign_found
assign_task-IsAssignment db actor task_id fresh now a w {w'} h =
    let (task, found, h₁) = bind-ok (ok_or (fetch_task_by_id task_id w.tasks) not_found) _ h in
    let (_, _, h₂) = bind-ok (ensure_reachable db actor a) _ h₁ in
    let shared = with_member actor a.uuid now w in
    let made = with_todo actor a task fresh shared in
    let (tasks, rows) = with_todo_keeps actor a task fresh shared in
    record {
      before = task;
      found = ok_or-ok (fetch_task_by_id task_id w.tasks) not_found found;
      todo_id = made.0;
      made = made.1;
      result = sym (ok_inj _ w' h₂);
      tasks = tasks;
      rows = rows;
    }

pub claim_open-IsClaimed :
    (db : Circles) (actor : VerifiedActor) (task_id : ProjectTaskId) (fresh : TodoId) (now : Time)
    (w : Work) {t : TaskRow} {w' : Work}
    → claim_open db actor task_id fresh now w ≡ ok (t, w')
    → IsClaimed actor.actor.uuid task_id t w'
unfolding claim_open
claim_open-IsClaimed db actor task_id fresh now w {t} {w'} h₁ =
    let me = actor.actor.uuid in
    let (task, found, h₂) = bind-ok (ok_or (fetch_task_by_id task_id w.tasks) not_found) _ h₁ in
    let (_, _, h₃) = bind-ok (fail_if (is_some task.assigned_to_account) _) _ h₂ in
    let (after, assigned, h₄) =
      bind-ok (assign_task db me task_id fresh now (some actor.actor) w) _ h₃ in
    let (claimed, got, h₅) =
      bind-ok (ok_or (fetch_task_by_id task_id after.tasks) not_found) _ h₄ in
    let a = assign_task-IsAssignment db me task_id fresh now actor.actor w assigned in
    let member : is_member me a.made.rows.participants ≡ true =
      ap (λ (r : ProjectRows). is_member me r.participants) a.rows
      ∙ is_member-add_member me me me now w.rows.participants
      ∙ ground (arith, beq_refl me) in
    let same : (claimed, after) ≡ (t, w') = ok_inj _ _ h₅ in
    subst (λ (p : TaskRow × Work). IsClaimed me task_id p.0 p.1) same
      (subst (IsClaimed me task_id claimed) (sym a.result) (
        set_assignee-IsClaimed task_id me a.todo_id now a.made a.before claimed
          (ap (fetch_task_by_id task_id) a.tasks ∙ a.found) member
          (ap (λ (v : Work). fetch_task_by_id task_id v.tasks) (sym a.result)
            ∙ ok_or-ok (fetch_task_by_id task_id after.tasks) not_found got)))

-- A claim finds the task open.
pub claim_open-unassigned :
    (db : Circles) (actor : VerifiedActor) (task_id : ProjectTaskId) (fresh : TodoId) (now : Time)
    (w : Work) (t : TaskRow) {c : TaskRow × Work}
    → claim_open db actor task_id fresh now w ≡ ok c
    → fetch_task_by_id task_id w.tasks ≡ some t
    → is_some t.assigned_to_account ≡ false
unfolding claim_open
claim_open-unassigned db actor task_id fresh now w t h stored =
    let (task, found, h₂) = bind-ok (ok_or (fetch_task_by_id task_id w.tasks) not_found) _ h in
    let (_, open', _) = bind-ok (fail_if (is_some task.assigned_to_account) _) _ h₂ in
    let same : some task ≡ some t =
      sym (ok_or-ok (fetch_task_by_id task_id w.tasks) not_found found) ∙ stored in
    ap is_assigned (sym same) ∙ fail_if-ok _ _ open'
  where
    is_assigned : Option TaskRow → Bool
    is_assigned none = false
    is_assigned (some r) = is_some r.assigned_to_account
