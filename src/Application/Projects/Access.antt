-- ===== src/Application/Projects/Access.antt =====
-- Who may change a project, and what others are told.
use silicon_commit.Base.{◌≡◌, ◌⊎◌, true, false, ok, err, arith}
use silicon_commit.Domain.Ids.{AccountUuid}
use silicon_commit.Postgres.Projects.{
  Circles, ProjectRows, LockedProject, lock_project, can_write, can_read,
}
use silicon_commit.Application.Projects.{authorize_locked_project, get_project}
use silicon_commit.Error.{denied, not_found}

-- What an authorized caller has locked.
pub authorize-ok :
    (db : Circles) (actor : AccountUuid) (s : ProjectRows) {l : LockedProject}
    → authorize_locked_project db actor s ≡ ok l
    → (l.status ≡ s.project.status) × (l.owner ≡ s.project.owner_account)
unfolding authorize_locked_project lock_project
authorize-ok db actor s h = ground arith

pub get_project-ok :
    (db : Circles) (viewer : AccountUuid) (s : ProjectRows) {t : ProjectRows}
    → get_project db viewer s ≡ ok t
    → s ≡ t
unfolding get_project
get_project-ok db viewer s h = ground arith

abbrev pub locked_of : ProjectRows → LockedProject
locked_of s = record {
  id = s.project.id;
  status = s.project.status;
  owner = s.project.owner_account;
  private = s.project.private;
}

-- A write to a project is authorized exactly for an account that may write to it, and the lock
-- returns its id, status, owner and visibility; an account that can only read it is refused with
-- the code `project_not_writable`; every other account, and every account for a deleted project, is
-- told that there is no such project, as by a read.
pub authorize_locked_project_outcomes :
    (db : Circles) (actor : AccountUuid) (s : ProjectRows)
    → ((can_write db actor s ≡ true) × (authorize_locked_project db actor s ≡ ok (locked_of s)))
      ⊎ ((can_write db actor s ≡ false)
          × (get_project db actor s ≡ ok s)
          × (authorize_locked_project db actor s ≡ err (denied "project_not_writable")))
      ⊎ ((get_project db actor s ≡ err not_found)
          × (authorize_locked_project db actor s ≡ err not_found))
unfolding authorize_locked_project lock_project get_project can_read can_write
authorize_locked_project_outcomes db actor s = ground arith
