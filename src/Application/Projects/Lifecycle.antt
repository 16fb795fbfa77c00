-- ===== src/Application/Projects/Lifecycle.antt =====
-- One use case after another on a project: its completion is final and stated once, and its owner
-- stays a member.
use silicon_commit.Base.{
  ℕ, ◌+◌, ◌≡◌, ◌≢◌, refl, sym, ap, ◌∙◌, Bool, true, false, ◌&&◌, ◌||◌, List, [], ◌∷◌, Option, none,
  some, ok, bind-ok, fail_if, fail_if-ok, ok_inj, map_err, map_err-ok, subst, arith, Bool-cases,
  inl, inr, if◌then◌else◌, ◌==◌, list_eq, nat_eq, any,
}
use silicon_commit.Text.{Text}
use silicon_commit.Domain.Ids.{AccountUuid, ProjectEntryId}
use silicon_commit.Domain.Actor.{Actor}
use silicon_commit.Domain.Todo.{Time, is_some}
use silicon_commit.Domain.Validation.{DomainLimits}
use silicon_commit.Domain.Project.{
  ProjectPatch, ValidatedProjectPatch, validate_project_patch, is_completing,
}
use silicon_commit.Domain.Project.Laws.Patch.{validate_project_patch-IsProjectPatchOf}
use silicon_commit.Domain.Project.Status.{
  ProjectStatus, completed, project_status_eq, project_status_beq_iff, ProjectEntryType, completion,
  entry_type_eq, entry_type_beq_iff,
}
use silicon_commit.Domain.Project.Tasks.{ValidatedProjectEntryCreate}
use silicon_commit.Postgres.Projects.{Circles, ProjectRow, ProjectRows, EntryRow}
use silicon_commit.Postgres.Projects.Changes.{patch_row, touch_project, coalesce}
use silicon_commit.Postgres.Projects.Journal.{insert_entry, completion_exists}
use silicon_commit.Application.Projects.Access.{authorize-ok}
use silicon_commit.Application.Projects.Updates.{
  IsUpdate, IsMemberUpdate, update_members-IsMemberUpdate,
}
use silicon_commit.Application.Authorization.{VerifiedActor}
use silicon_commit.Application.Projects.{
  validate_request_id, authorize_locked_project, create_entry,
}
use silicon_commit.Application.Projects.Membership.{Directory, update_request}
use silicon_commit.Error.{validation}

abbrev pub completions : List EntryRow → ℕ
completions [] = 0
completions (e ∷ es) = (if e.entry_type == completion then 1 else 0) + completions es

-- A project is completed exactly when it has a completion entry, and it has one at most.
abbrev pub IsStatedOnce : ProjectRows → Type 0
IsStatedOnce r = completions r.entries ≡ (if r.project.status == completed then 1 else 0)

any_of_completions :
    (es : List EntryRow)
    → completions es ≡ 0
    → any (λ (e : EntryRow). e.entry_type == completion) es ≡ false
any_of_completions [] h = refl
any_of_completions (e ∷ es) h = ground (arith, any_of_completions es)

-- What an appended entry leaves.
pub record IsAppended (t : ProjectEntryType) (s s' : ProjectRows) (e : EntryRow) : Type 0 where
  pub entries : s'.entries ≡ e ∷ s.entries
  pub entry_type : e.entry_type ≡ t
  pub status : s'.project.status ≡ (if t == completion then completed else s.project.status)
  pub owner : s'.project.owner_account ≡ s.project.owner_account
  pub participants : s'.participants ≡ s.participants

insert_entry-IsAppended :
    (actor : AccountUuid) (id : ProjectEntryId) (command : ValidatedProjectEntryCreate) (now : Time)
    (s : ProjectRows) {e : EntryRow} {s' : ProjectRows}
    → insert_entry actor id command now s ≡ ok (e, s')
    → IsAppended command.entry_type s s' e
unfolding insert_entry touch_project
insert_entry-IsAppended actor id command now s {e} {s'} h =
    let (_, _, k) =
      bind-ok (fail_if (command.entry_type == completion && completion_exists s) _) _ h in
    subst (λ (p : EntryRow × ProjectRows). IsAppended command.entry_type s p.1 p.0)
      (ok_inj _ (e, s') k)
      (record {
        entries = refl;
        entry_type = refl;
        status = status_after (command.entry_type == completion);
        owner = owner_after (command.entry_type == completion);
        participants = refl;
      })
  where
    touched : ProjectRow
    touched = touch_project now s.project

    status_after :
        (b : Bool)
        → (if b then record touched { status = completed } else touched).status
          ≡ (if b then completed else s.project.status)
    status_after true = refl
    status_after false = refl

    owner_after :
        (b : Bool)
        → (if b then record touched { status = completed } else touched).owner_account
          ≡ s.project.owner_account
    owner_after true = refl
    owner_after false = refl

-- What `create_entry` checked, and what it left.
pub create_entry-IsAppended :
    (db : Circles) (actor : AccountUuid) (id : ProjectEntryId)
    (command : ValidatedProjectEntryCreate) (now : Time) (s : ProjectRows) {e : EntryRow}
    {s' : ProjectRows}
    → create_entry db actor id command now s ≡ ok (e, s')
    → ((command.entry_type == completion && (s.project.status == completed || completion_exists s))
        ≡ false)
      × IsAppended command.entry_type s s' e
unfolding create_entry
create_entry-IsAppended db actor id command now s h =
    let (locked, authorized, h₁) = bind-ok (authorize_locked_project db actor s) _ h in
    let (_, guarded, h₂) =
      bind-ok
        (fail_if
          (command.entry_type == completion && (locked.status == completed || completion_exists s))
          _)
        _ h₁ in
    (
      ap (λ st. command.entry_type == completion && (st == completed || completion_exists s))
            (sym (authorize-ok db actor s authorized).0)
          ∙ fail_if-ok _ _ guarded,
      insert_entry-IsAppended actor id command now s h₂,
    )

pub create_entry-IsStatedOnce :
    (db : Circles) (actor : AccountUuid) (id : ProjectEntryId)
    (command : ValidatedProjectEntryCreate) (now : Time) (s : ProjectRows) {e : EntryRow}
    {s' : ProjectRows}
    → create_entry db actor id command now s ≡ ok (e, s')
    → IsStatedOnce s
    → IsStatedOnce s'
create_entry-IsStatedOnce db actor id command now s {e} h k =
    let (guarded, a) = create_entry-IsAppended db actor id command now s h in
    rw (a.entries, a.status, a.entry_type)
      (ground (
        arith,
        guarded,
        k,
        entry_type_beq_iff command.entry_type completion,
        project_status_beq_iff s.project.status completed,
        project_status_beq_iff completed completed,
      ))

pub create_entry_final :
    (db : Circles) (actor : AccountUuid) (id : ProjectEntryId)
    (command : ValidatedProjectEntryCreate) (now : Time) (s : ProjectRows) {e : EntryRow}
    {s' : ProjectRows}
    → create_entry db actor id command now s ≡ ok (e, s')
    → s.project.status ≡ completed
    → s'.project.status ≡ completed
create_entry_final db actor id command now s {e} h k =
    let (guarded, a) = create_entry-IsAppended db actor id command now s h in
    a.status ∙ ground (arith, k)

status_kept :
    (st : ProjectStatus) (o : Option ProjectStatus)
    → (st == completed && is_some o) ≡ false
    → is_completing o ≡ false
    → (coalesce o st == completed) ≡ (st == completed)
status_kept st none h k = refl
status_kept st (some t) h k = ground arith

pub update_request-IsMemberUpdate :
    (directory : Directory) (db : Circles) (actor : VerifiedActor) (limits : DomainLimits)
    (request_id : Text) (snapshot : ProjectRows) (shown : List Actor) (request : ProjectPatch)
    (now : Time) (s : ProjectRows) {s' : ProjectRows}
    → update_request directory db actor limits request_id snapshot shown request now s ≡ ok s'
    → (command : ValidatedProjectPatch) × (validate_project_patch request limits ≡ ok command)
      × IsMemberUpdate directory actor shown snapshot.project.owner_account command now s s'
unfolding update_request
update_request-IsMemberUpdate directory db actor limits request_id snapshot shown request now s h =
    let (_, _, h₁) = bind-ok (validate_request_id request_id) _ h in
    let (command, valid, h₂) =
      bind-ok (map_err validation (validate_project_patch request limits)) _ h₁ in
    (
      command,
      map_err-ok _ _ valid,
      update_members-IsMemberUpdate directory db actor snapshot shown command now s h₂,
    )

-- A patch that is stored neither completes a project nor reopens it.
pub update-status :
    (actor : AccountUuid) (request : ProjectPatch) (limits : DomainLimits)
    (command : ValidatedProjectPatch) (members : Option (List AccountUuid)) (now : Time)
    (s s' : ProjectRows)
    → validate_project_patch request limits ≡ ok command
    → IsUpdate actor command members now s s'
    → (s'.project.status == completed) ≡ (s.project.status == completed)
unfolding patch_row
update-status actor request limits command members now s s' valid u =
    ap (λ (p : ProjectRow). p.status == completed) u.project
    ∙ status_kept s.project.status command.status u.open_status (
        not_completing command.status
          (validate_project_patch-IsProjectPatchOf request limits valid).not_completing)
  where
    not_completing : (o : Option ProjectStatus) → o ≢ some completed → is_completing o ≡ false
    not_completing none h = refl
    not_completing (some t) h = elim (Bool-cases (t == completed)) [
      | inl e ↦ absurd (h (ap some ((project_status_beq_iff t completed).0 e)))
      | inr e ↦ e
    ]
