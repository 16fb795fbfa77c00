-- ===== src/Application/Projects/Updates.antt =====
-- What a replacement of a project's metadata and members leaves.
use silicon_commit.Base.{
  ◌≡◌, refl, sym, ap, ◌∙◌, true, false, ◌&&◌, List, Option, none, some, ok, bind-ok, fail_if,
  fail_if-ok, ok_inj, subst, arith, ◌==◌, contains, list_eq, nat_eq,
}
use silicon_commit.Domain.Ids.{AccountUuid}
use silicon_commit.Domain.Actor.{Actor}
use silicon_commit.Domain.Todo.{Time, is_some}
use silicon_commit.Domain.Project.{ValidatedProjectPatch}
use silicon_commit.Domain.Project.Status.{completed, project_status_eq}
use silicon_commit.Postgres.Projects.{
  Circles, ProjectRows, LockedProject, ParticipantRow, is_member,
}
use silicon_commit.Postgres.Projects.Changes.{
  update_project, patch_row, replaced_members, omits, close_unlisted,
}
use silicon_commit.Application.Authorization.{VerifiedActor}
use silicon_commit.Application.Projects.{
  get_project, ensure_project_remains_terminal, authorize_locked_project,
}
use silicon_commit.Application.Projects.Membership.{
  Directory, desired_members, option_uuids, uuids, ensure_all_reachable, update_members,
}
use silicon_commit.Application.Projects.Access.{authorize-ok, get_project-ok}
use silicon_commit.Application.Projects.Members.{
  one_active, is_member-insert_missing_members, is_member-close_unlisted,
  one_active-insert_missing_members, one_active-close_unlisted,
}

pub record IsUpdate (actor : AccountUuid) (command : ValidatedProjectPatch)
    (members : Option (List AccountUuid)) (now : Time) (s s' : ProjectRows) : Type 0 where
  pub open_status : (s.project.status == completed && is_some command.status) ≡ false
  pub keeps_owner : omits members s.project.owner_account ≡ false
  pub project : s'.project ≡ patch_row command now s.project
  pub participants : s'.participants ≡ replaced_members actor members now s.participants
  pub entries : s'.entries ≡ s.entries

update_project-IsUpdate :
    (actor : AccountUuid) (l : LockedProject) (command : ValidatedProjectPatch)
    (members : Option (List AccountUuid)) (now : Time) (s : ProjectRows) {s' : ProjectRows}
    → l.status ≡ s.project.status
    → l.owner ≡ s.project.owner_account
    → update_project actor l command members now s ≡ ok s'
    → IsUpdate actor command members now s s'
unfolding update_project
update_project-IsUpdate actor l command members now s {s'} status owner h =
    let (_, terminal, h₁) =
      bind-ok (fail_if (l.status == completed && is_some command.status) _) _ h in
    let (_, owned, h₂) = bind-ok (fail_if (omits members l.owner) _) _ h₁ in
    subst (IsUpdate actor command members now s) (ok_inj _ s' h₂) (record {
      open_status =
          ap (λ st. st == completed && is_some command.status) (sym status)
          ∙ fail_if-ok _ _ terminal;
      keeps_owner = ap (omits members) (sym owner) ∙ fail_if-ok _ _ owned;
      project = refl;
      participants = refl;
      entries = refl;
    })

-- The members that a request asked for, with what its update left.
pub record IsMemberUpdate (directory : Directory) (actor : VerifiedActor) (shown : List Actor)
    (owner : AccountUuid) (command : ValidatedProjectPatch) (now : Time) (s s' : ProjectRows)
    : Type 0 where
  pub wanted : Option (List Actor)
  pub resolved : List Actor
  pub asked : desired_members directory actor shown owner command ≡ ok (wanted, resolved)
  pub update : IsUpdate actor.actor.uuid command (option_uuids wanted) now s s'

pub update_members-IsMemberUpdate :
    (directory : Directory) (db : Circles) (actor : VerifiedActor) (snapshot : ProjectRows)
    (shown : List Actor) (command : ValidatedProjectPatch) (now : Time) (s : ProjectRows)
    {s' : ProjectRows}
    → update_members directory db actor snapshot shown command now s ≡ ok s'
    → IsMemberUpdate directory actor shown snapshot.project.owner_account command now s s'
unfolding update_members
update_members-IsMemberUpdate directory db actor snapshot shown command now s h =
    let me = actor.actor.uuid in
    let (seen, read, h₁) = bind-ok (get_project db me snapshot) _ h in
    let (_, _, h₂) = bind-ok (ensure_project_remains_terminal seen.project.status command) _ h₁ in
    let (desired, asked, h₃) =
      bind-ok (desired_members directory actor shown seen.project.owner_account command) _ h₂ in
    let (locked, authorized, h₄) = bind-ok (authorize_locked_project db me s) _ h₃ in
    let (_, _, h₅) = bind-ok (ensure_project_remains_terminal locked.status command) _ h₄ in
    let (_, _, h₆) = bind-ok (ensure_all_reachable db me (uuids shown) desired.1) _ h₅ in
    let (status, owner) = authorize-ok db me s authorized in
    record {
      wanted = desired.0;
      resolved = desired.1;
      asked =
          ap
            (λ (r : ProjectRows).
              desired_members directory actor shown r.project.owner_account command)
            (get_project-ok db me snapshot read)
          ∙ asked;
      update =
          update_project-IsUpdate me locked command (option_uuids desired.0) now s status owner h₆;
    }

-- After a replacement of the members the active members are exactly the listed accounts.
pub is_member-replaced_members :
    (a actor : AccountUuid) (accounts : List AccountUuid) (now : Time) (ms : List ParticipantRow)
    → is_member a (replaced_members actor (some accounts) now ms) ≡ contains accounts a
is_member-replaced_members a actor accounts now ms =
    is_member-insert_missing_members a actor accounts now (close_unlisted actor accounts now ms)
    ∙ ground (arith, is_member-close_unlisted a actor accounts now ms)

pub one_active-replaced_members :
    (actor : AccountUuid) (members : Option (List AccountUuid)) (now : Time)
    (ms : List ParticipantRow)
    → one_active ms ≡ true
    → one_active (replaced_members actor members now ms) ≡ true
one_active-replaced_members actor none now ms h = h
one_active-replaced_members actor (some accounts) now ms h =
    one_active-insert_missing_members actor accounts now (close_unlisted actor accounts now ms)
      (one_active-close_unlisted actor accounts now ms h)

owner-replaced_members :
    (owner actor : AccountUuid) (members : Option (List AccountUuid)) (now : Time)
    (ms : List ParticipantRow)
    → omits members owner ≡ false
    → is_member owner ms ≡ true
    → is_member owner (replaced_members actor members now ms) ≡ true
owner-replaced_members owner actor none now ms k h = h
owner-replaced_members owner actor (some accounts) now ms k h =
    is_member-replaced_members owner actor accounts now ms ∙ ground (arith, k)

-- The owner is a member, and no account is a member twice.
pub record IsOwned (r : ProjectRows) : Type 0 where
  pub owner : is_member r.project.owner_account r.participants ≡ true
  pub once : one_active r.participants ≡ true

pub update-IsOwned :
    (actor : AccountUuid) (command : ValidatedProjectPatch) (members : Option (List AccountUuid))
    (now : Time) (s s' : ProjectRows)
    → IsUpdate actor command members now s s'
    → IsOwned s
    → IsOwned s'
unfolding patch_row
update-IsOwned actor command members now s s' u o = record {
  owner =
      rw (u.project, u.participants)
        (owner-replaced_members s.project.owner_account actor members now s.participants
          u.keeps_owner o.owner);
  once = rw u.participants (one_active-replaced_members actor members now s.participants o.once);
}
