-- ===== src/Application/Projects/Creation.antt =====
-- `create_project` of src/application/projects.rs where no response is stored: the rows, the members
-- and the initial tasks that one transaction leaves. `none` means that the loop over the initial
-- tasks ran out of fuel. Fresh ids and the creation times of the creator's projects with the same
-- slug are arguments.
pub mod Participants
pub mod Sound
use silicon_commit.Base.{
  ℕ, ◌+◌, Bool, List, [], ◌∷◌, Option, none, some, ok, err, map_err, ◌>>=◌, ◌>>◌, pos,
}
use silicon_commit.Text.{Text}
use silicon_commit.Domain.Ids.{AccountUuid, ProjectId, ProjectTaskId, TodoId}
use silicon_commit.Domain.Actor.{Actor}
use silicon_commit.Domain.Todo.{Time}
use silicon_commit.Domain.Validation.{DomainLimits}
use silicon_commit.Domain.Project.{ProjectCreate, ValidatedProjectCreate, validate_project_create}
use silicon_commit.Domain.Project.Uid.{new_uid}
use silicon_commit.Postgres.Projects.{Circles, next_project_created_at}
use silicon_commit.Postgres.Projects.Changes.{insert_project}
use silicon_commit.Postgres.Projects.Tasks.{Work, insert_task}
use silicon_commit.Application.Authorization.{VerifiedActor}
use silicon_commit.Application.Projects.{validate_request_id}
use silicon_commit.Application.Projects.Membership.{
  Directory, resolve_participants, ensure_all_reachable, uuids,
}
use silicon_commit.Application.Projects.Tasks.{DirectoryOfOne, assign_new}
use silicon_commit.Application.Projects.Seeds.{Seed, prepare_seed_tasks}
use silicon_commit.Error.{validation, Fallible}

-- What a request needs from outside: the directory, the accounts of the database, fresh ids, a clock
pub record Outside : Type 0 where
  pub is_alphanumeric : ℕ → Bool
  pub slugify : Text → Text
  pub directory : Directory
  pub directory_of_one : DirectoryOfOne
  pub circles : Circles
  pub fresh_project : ProjectId
  pub fresh_task : ℕ → ProjectTaskId
  pub fresh_todo : ℕ → TodoId
  pub same_slug : List Time
  pub now : Time

-- The loop over the prepared tasks
unfoldable pub insert_seeds : Outside → AccountUuid → ℕ → List Seed → Work → Fallible Work
insert_seeds o actor n [] w = ok w
insert_seeds o actor n (s ∷ ss) w = do
  w' ←
      assign_new o.circles actor s.id (o.fresh_todo n) o.now s.assignee
        (insert_task actor s.id s.command o.now w)
  insert_seeds o actor (n + 1) ss w'

-- The part of the transaction that writes
unfoldable pub write_project :
    Outside → VerifiedActor → ValidatedProjectCreate → List Actor → List Seed → Fallible Work
unfolding insert_seeds
write_project o actor command participants seeds = do
  let me = actor.actor.uuid
  ensure_all_reachable o.circles me [] participants
  let created_at = next_project_created_at o.now o.same_slug
  let uid = new_uid command.slug actor.actor.id (pos created_at)
  let rows = insert_project me o.fresh_project command uid created_at o.now (uuids participants)
  insert_seeds o me 0 seeds (record { rows = rows; tasks = []; todos = [] })

-- The seeds are prepared before the transaction begins.
abbrev pub with_seeds :
    Option (Fallible (List Seed)) → (List Seed → Fallible Work) → Option (Fallible Work)
with_seeds none go = none
with_seeds (some seeds) go = some (seeds >>= go)

-- The steps before the seeds: the validated command and its members
unfoldable pub resolve_command :
    Outside
    → VerifiedActor
    → DomainLimits
    → Text
    → ProjectCreate
    → Fallible (ValidatedProjectCreate × List Actor)
resolve_command o actor limits request_id request = do
  validate_request_id request_id
  command ←
      map_err validation
        (validate_project_create o.is_alphanumeric o.slugify request limits actor.actor)
  participants ←
      resolve_participants o.directory actor command.silicon_ids command.details.carbon_ids
  ok (command, participants)

abbrev pub with_command :
    Outside
    → VerifiedActor
    → DomainLimits
    → Fallible (ValidatedProjectCreate × List Actor)
    → Option (Fallible Work)
with_command o actor limits (err e) = some (err e)
with_command o actor limits (ok (command, participants)) =
    with_seeds (prepare_seed_tasks o.directory_of_one actor limits o.fresh_task command.tasks)
      (write_project o actor command participants)

-- `ProjectService::create_project`
unfoldable pub create_project :
    Outside → VerifiedActor → DomainLimits → Text → ProjectCreate → Option (Fallible Work)
unfolding resolve_command
create_project o actor limits request_id request =
    with_command o actor limits (resolve_command o actor limits request_id request)
