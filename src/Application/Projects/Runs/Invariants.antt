-- ===== src/Application/Projects/Runs/Invariants.antt =====
-- What every run of use cases on a project keeps.
use silicon_commit.Base.{
  ◌≡◌, refl, ap, ◌∙◌, true, List, ok, subst, ◌==◌, list_eq, nat_eq, bind-ok, ok_or, fail_if, not,
  ok_inj, ◌||◌, ℤ,
}
use silicon_commit.Domain.Ids.{AccountUuid}
use silicon_commit.Domain.Todo.{Time}
use silicon_commit.Domain.Project.Status.{
  completed, project_status_eq, project_status_beq_iff, entry_type_eq,
}
use silicon_commit.Domain.Project.Diary.{ExpectedDiaryVersion, ValidatedDiaryUpdate, diary_matches}
use silicon_commit.Postgres.Projects.{Circles, ProjectRows, DiaryRow, ParticipantRow, is_member}
use silicon_commit.Postgres.Projects.Changes.{touch_project}
use silicon_commit.Postgres.Projects.Journal.{replace_diary, replaced_diary}
use silicon_commit.Postgres.Projects.Tasks.{Work}
use silicon_commit.Application.Projects.{authorize_locked_project, replace_current_diary}
use silicon_commit.Application.Projects.Members.{
  one_active, one_active-add_member, is_member-add_member,
}
use silicon_commit.Application.Projects.Updates.{IsOwned, update-IsOwned}
use silicon_commit.Application.Projects.Lifecycle.{
  IsStatedOnce, create_entry-IsStatedOnce, create_entry-IsAppended, create_entry_final,
  update_request-IsMemberUpdate, update-status,
}
use silicon_commit.Application.Projects.Tasks.Keeps.{
  TaskKeeps, MemberStep, same, added, create_task-TaskKeeps, patch_project_task-TaskKeeps,
  claim_task-TaskKeeps,
}
use silicon_commit.Application.Projects.Runs.{
  ProjectStep, updated, appended, rewritten, created, patched, claimed, ProjectRun, start, next,
}

-- A diary replacement changes the diary and the time of the project only.
record IsRewritten (s s' : ProjectRows) : Type 0 where
  status : s'.project.status ≡ s.project.status
  owner : s'.project.owner_account ≡ s.project.owner_account
  entries : s'.entries ≡ s.entries
  participants : s'.participants ≡ s.participants

replace_diary-IsRewritten :
    (actor : AccountUuid) (expected : ℤ) (command : ValidatedDiaryUpdate) (now : Time)
    (s : ProjectRows) {d : DiaryRow} {s' : ProjectRows}
    → replace_diary actor expected command now s ≡ ok (d, s')
    → IsRewritten s s'
unfolding replace_diary touch_project
replace_diary-IsRewritten actor expected command now s {d} {s'} h =
    let (row, _, k) = bind-ok (ok_or (replaced_diary actor expected command now s.diary) _) _ h in
    subst (λ (p : DiaryRow × ProjectRows). IsRewritten s p.1) (ok_inj _ (d, s') k)
      (record { status = refl; owner = refl; entries = refl; participants = refl })

replace_current_diary-IsRewritten :
    (db : Circles) (actor : AccountUuid) (expected : ExpectedDiaryVersion)
    (command : ValidatedDiaryUpdate) (now : Time) (s : ProjectRows) {d : DiaryRow}
    {s' : ProjectRows}
    → replace_current_diary db actor expected command now s ≡ ok (d, s')
    → IsRewritten s s'
unfolding replace_current_diary
replace_current_diary-IsRewritten db actor expected command now s h =
    let (_, _, h₁) = bind-ok (authorize_locked_project db actor s) _ h in
    let (current, _, h₂) = bind-ok (ok_or s.diary _) _ h₁ in
    let (_, _, h₃) = bind-ok (fail_if (not (diary_matches expected current.version)) _) _ h₂ in
    replace_diary-IsRewritten actor current.version command now s h₃

-- Same status and entries.
stated_same :
    (s s' : ProjectRows)
    → (s'.project.status == completed) ≡ (s.project.status == completed)
    → s'.entries ≡ s.entries
    → IsStatedOnce s
    → IsStatedOnce s'
stated_same s s' status entries h = rw (status, entries) h

pub task_stated : (s s' : ProjectRows) → TaskKeeps s s' → IsStatedOnce s → IsStatedOnce s'
task_stated s s' k = stated_same s s' (ap (λ st. st == completed) k.status) k.entries

step-IsStatedOnce : {w w' : Work} → ProjectStep w w' → IsStatedOnce w.rows → IsStatedOnce w'.rows
step-IsStatedOnce {w}
      (updated directory db actor limits request_id snapshot shown request now rows e) h =
    let (command, valid, u) =
      update_request-IsMemberUpdate directory db actor limits request_id snapshot shown request now
        w.rows e in
    stated_same w.rows rows
      (update-status _ request limits command _ now w.rows rows valid u.update) u.update.entries h
step-IsStatedOnce {w} (appended db actor id command now entry rows e) h =
    create_entry-IsStatedOnce db actor id command now w.rows e h
step-IsStatedOnce {w} (rewritten db actor expected command now diary rows e) h =
    let r = replace_current_diary-IsRewritten db actor expected command now w.rows e in
    stated_same w.rows rows (ap (λ st. st == completed) r.status) r.entries h
step-IsStatedOnce {w} (created db actor task_id fresh now command assignee task w' e) h =
    task_stated w.rows w'.rows
      (create_task-TaskKeeps db actor task_id fresh now command assignee w e) h
step-IsStatedOnce {w} (patched directory db actor task_id fresh now command task w' e) h =
    task_stated w.rows w'.rows
      (patch_project_task-TaskKeeps directory db actor task_id fresh now command w e) h
step-IsStatedOnce {w} (claimed db actor task_id fresh now task w' e) h =
    task_stated w.rows w'.rows (claim_task-TaskKeeps db actor task_id fresh now w e) h

-- Every run of use cases on a project, of any callers and in any order, keeps that it is completed
-- exactly when it has a completion entry, and that it has at most one.
pub run-IsStatedOnce : {w w' : Work} → ProjectRun w w' → IsStatedOnce w.rows → IsStatedOnce w'.rows
run-IsStatedOnce start h = h
run-IsStatedOnce (next r st) h = step-IsStatedOnce st (run-IsStatedOnce r h)

final_of_test :
    (s s' : ProjectRows)
    → (s'.project.status == completed) ≡ (s.project.status == completed)
    → s.project.status ≡ completed
    → s'.project.status ≡ completed
final_of_test s s' t h =
    (project_status_beq_iff s'.project.status completed).0
      (t ∙ (project_status_beq_iff s.project.status completed).1 h)

step_final :
    {w w' : Work}
    → ProjectStep w w'
    → w.rows.project.status ≡ completed
    → w'.rows.project.status ≡ completed
step_final {w} (updated directory db actor limits request_id snapshot shown request now rows e) h =
    let (command, valid, u) =
      update_request-IsMemberUpdate directory db actor limits request_id snapshot shown request now
        w.rows e in
    final_of_test w.rows rows
      (update-status _ request limits command _ now w.rows rows valid u.update) h
step_final {w} (appended db actor id command now entry rows e) h =
    create_entry_final db actor id command now w.rows e h
step_final {w} (rewritten db actor expected command now diary rows e) h =
    (replace_current_diary-IsRewritten db actor expected command now w.rows e).status ∙ h
step_final {w} (created db actor task_id fresh now command assignee task w' e) h =
    (create_task-TaskKeeps db actor task_id fresh now command assignee w e).status ∙ h
step_final {w} (patched directory db actor task_id fresh now command task w' e) h =
    (patch_project_task-TaskKeeps directory db actor task_id fresh now command w e).status ∙ h
step_final {w} (claimed db actor task_id fresh now task w' e) h =
    (claim_task-TaskKeeps db actor task_id fresh now w e).status ∙ h

-- A project that is completed is completed after every run of use cases on it.
pub run_final :
    {w w' : Work}
    → ProjectRun w w'
    → w.rows.project.status ≡ completed
    → w'.rows.project.status ≡ completed
run_final start h = h
run_final (next r st) h = step_final st (run_final r h)

one_active-kept :
    {ms ms' : List ParticipantRow}
    → MemberStep ms ms'
    → one_active ms ≡ true
    → one_active ms' ≡ true
one_active-kept same h = h
one_active-kept {ms} (added actor member now) h = one_active-add_member actor member now ms h

is_member-kept :
    (a : AccountUuid) {ms ms' : List ParticipantRow}
    → MemberStep ms ms'
    → is_member a ms ≡ true
    → is_member a ms' ≡ true
is_member-kept a same h = h
is_member-kept a {ms} (added actor member now) h =
    is_member-add_member a actor member now ms ∙ ap (λ b. b || member == a) h

pub task-IsOwned : (s s' : ProjectRows) → TaskKeeps s s' → IsOwned s → IsOwned s'
task-IsOwned s s' k o = record {
  owner =
      ap (λ a. is_member a s'.participants) k.owner
      ∙ is_member-kept s.project.owner_account k.members o.owner;
  once = one_active-kept k.members o.once;
}

same-IsOwned :
    (s s' : ProjectRows)
    → s'.project.owner_account ≡ s.project.owner_account
    → s'.participants ≡ s.participants
    → IsOwned s
    → IsOwned s'
same-IsOwned s s' owner participants o = record {
  owner = rw (owner, participants) o.owner;
  once = rw participants o.once;
}

step-IsOwned : {w w' : Work} → ProjectStep w w' → IsOwned w.rows → IsOwned w'.rows
step-IsOwned {w} (updated directory db actor limits request_id snapshot shown request now rows e)
      h =
    let (command, valid, u) =
      update_request-IsMemberUpdate directory db actor limits request_id snapshot shown request now
        w.rows e in
    update-IsOwned _ command _ now w.rows rows u.update h
step-IsOwned {w} (appended db actor id command now entry rows e) h =
    let a = (create_entry-IsAppended db actor id command now w.rows e).1 in
    same-IsOwned w.rows rows a.owner a.participants h
step-IsOwned {w} (rewritten db actor expected command now diary rows e) h =
    let r = replace_current_diary-IsRewritten db actor expected command now w.rows e in
    same-IsOwned w.rows rows r.owner r.participants h
step-IsOwned {w} (created db actor task_id fresh now command assignee task w' e) h =
    task-IsOwned w.rows w'.rows
      (create_task-TaskKeeps db actor task_id fresh now command assignee w e) h
step-IsOwned {w} (patched directory db actor task_id fresh now command task w' e) h =
    task-IsOwned w.rows w'.rows
      (patch_project_task-TaskKeeps directory db actor task_id fresh now command w e) h
step-IsOwned {w} (claimed db actor task_id fresh now task w' e) h =
    task-IsOwned w.rows w'.rows (claim_task-TaskKeeps db actor task_id fresh now w e) h

-- Every run of use cases on a project, of any callers and in any order, keeps that its owner is an
-- active member, and that no account is an active member twice.
pub run-IsOwned : {w w' : Work} → ProjectRun w w' → IsOwned w.rows → IsOwned w'.rows
run-IsOwned start h = h
run-IsOwned (next r st) h = step-IsOwned st (run-IsOwned r h)
