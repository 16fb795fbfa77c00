-- ===== src/Application/Projects/Creation/Sound.antt =====
-- A created project is sound, and so is every project that use cases made of it.
use silicon_commit.Error.{Fallible, validation}
use silicon_commit.Base.{
  ℕ, ◌+◌, ◌≡◌, refl, ◌∙◌, subst, true, false, List, [], ◌∷◌, Option, none, some, ok, err, bind-ok,
  ok_inj, map_err, map_err-ok, contains, is_empty, list_eq, nat_eq, ◌>>=◌,
}
use silicon_commit.Text.{Text}
use silicon_commit.Domain.Ids.{AccountUuid, ProjectId}
use silicon_commit.Domain.Project.Uid.{ProjectUid}
use silicon_commit.Domain.Project.Status.{project_status_beq}
use silicon_commit.Application.Projects.Seeds.{Seed, prepare_seed_tasks}
use silicon_commit.Application.Projects.Tasks.{assign_new}
use silicon_commit.Application.Projects.Tasks.Keeps.{inserted-TaskKeeps}
use silicon_commit.Application.Projects.Runs.{ProjectRun}
use silicon_commit.Application.Projects.Runs.Invariants.{
  task_stated, task-IsOwned, run-IsOwned, run-IsStatedOnce,
}
use silicon_commit.Application.Projects.Creation.{
  Outside, insert_seeds, write_project, with_seeds, with_command, resolve_command, create_project,
}
use silicon_commit.Domain.Actor.{Actor, actor_type_eq}
use silicon_commit.Domain.Todo.{Time}
use silicon_commit.Domain.Validation.{DomainLimits}
use silicon_commit.Domain.Project.{ProjectCreate, ValidatedProjectCreate, validate_project_create}
use silicon_commit.Domain.Project.Laws.{validate_project_create-IsProjectCreateOf}
use silicon_commit.Postgres.Projects.Changes.{insert_project}
use silicon_commit.Postgres.Projects.Tasks.{Work, insert_task}
use silicon_commit.Application.Authorization.{VerifiedActor}
use silicon_commit.Application.Projects.{validate_request_id}
use silicon_commit.Application.Projects.Membership.{
  resolve_participants, ensure_all_reachable, uuids,
}
use silicon_commit.Application.Projects.Members.{
  is_member-insert_missing_members, one_active-insert_missing_members,
}
use silicon_commit.Application.Projects.Updates.{IsOwned}
use silicon_commit.Application.Projects.Lifecycle.{IsStatedOnce}
use silicon_commit.Application.Projects.Creation.Participants.{creator_participates}

-- The rows of a new project
insert_project-IsOwned :
    (actor : AccountUuid) (id : ProjectId) (command : ValidatedProjectCreate) (uid : ProjectUid)
    (created_at now : Time) (members : List AccountUuid)
    → contains members actor ≡ true
    → IsOwned (insert_project actor id command uid created_at now members)
unfolding insert_project
insert_project-IsOwned actor id command uid created_at now members listed = record {
  owner = is_member-insert_missing_members actor actor members now [] ∙ listed;
  once = one_active-insert_missing_members actor members now [] refl;
}

insert_project-IsStatedOnce :
    (actor : AccountUuid) (id : ProjectId) (command : ValidatedProjectCreate) (uid : ProjectUid)
    (created_at now : Time) (members : List AccountUuid)
    → IsStatedOnce (insert_project actor id command uid created_at now members)
unfolding insert_project project_status_beq
insert_project-IsStatedOnce actor id command uid created_at now members = refl

insert_seeds_sound :
    (o : Outside) (actor : AccountUuid) (n : ℕ) (seeds : List Seed) (w : Work) {w' : Work}
    → insert_seeds o actor n seeds w ≡ ok w'
    → IsOwned w.rows × IsStatedOnce w.rows
    → IsOwned w'.rows × IsStatedOnce w'.rows
unfolding insert_seeds
insert_seeds_sound o actor n [] w {w'} h sound =
    subst (λ (v : Work). IsOwned v.rows × IsStatedOnce v.rows) (ok_inj w w' h) sound
insert_seeds_sound o actor n (s ∷ ss) w h sound =
    let (w₁, made, h₁) =
      bind-ok
        (assign_new o.circles actor s.id (o.fresh_todo n) o.now s.assignee
          (insert_task actor s.id s.command o.now w))
        _ h in
    let kept =
      inserted-TaskKeeps o.circles actor s.id (o.fresh_todo n) o.now s.command s.assignee w made in
    insert_seeds_sound o actor (n + 1) ss w₁ h₁
      (task-IsOwned w.rows w₁.rows kept sound.0, task_stated w.rows w₁.rows kept sound.1)

write_project_sound :
    (o : Outside) (actor : VerifiedActor) (command : ValidatedProjectCreate)
    (participants : List Actor) (seeds : List Seed) {w : Work}
    → contains (uuids participants) actor.actor.uuid ≡ true
    → write_project o actor command participants seeds ≡ ok w
    → IsOwned w.rows × IsStatedOnce w.rows
unfolding write_project
write_project_sound o actor command participants seeds listed h =
    let me = actor.actor.uuid in
    let (_, _, h₁) = bind-ok (ensure_all_reachable o.circles me [] participants) _ h in
    insert_seeds_sound o me 0 seeds _ h₁ (
      insert_project-IsOwned me o.fresh_project command _ _ o.now (uuids participants) listed,
      insert_project-IsStatedOnce me o.fresh_project command _ _ o.now (uuids participants),
    )

-- What a creation that returned went through
record IsCreated (o : Outside) (actor : VerifiedActor)
    (x : Fallible (ValidatedProjectCreate × List Actor)) (w : Work) : Type 0 where
  command : ValidatedProjectCreate
  participants : List Actor
  seeds : List Seed
  resolved : x ≡ ok (command, participants)
  written : write_project o actor command participants seeds ≡ ok w

with_command-IsCreated :
    (o : Outside) (actor : VerifiedActor) (limits : DomainLimits)
    (x : Fallible (ValidatedProjectCreate × List Actor)) {w : Work}
    → with_command o actor limits x ≡ some (ok w)
    → IsCreated o actor x w
with_command-IsCreated o actor limits (err e) h = absurd (cc h)
with_command-IsCreated o actor limits (ok (command, participants)) {w} h =
    by_seeds (prepare_seed_tasks o.directory_of_one actor limits o.fresh_task command.tasks) h
  where
    by_seeds :
        (p : Option (Fallible (List Seed)))
        → with_seeds p (write_project o actor command participants) ≡ some (ok w)
        → IsCreated o actor (ok (command, participants)) w
    by_seeds none k = absurd (cc k)
    by_seeds (some p) k =
        let answer : (p >>= write_project o actor command participants) ≡ ok w = cc k in
        let (seeds, _, written) = bind-ok p _ answer in
        record {
          command = command;
          participants = participants;
          seeds = seeds;
          resolved = refl;
          written = written;
        }

create_project_sound :
    (o : Outside) (actor : VerifiedActor) (limits : DomainLimits) (request_id : Text)
    (request : ProjectCreate) {w : Work}
    → is_empty actor.actor.id ≡ false
    → create_project o actor limits request_id request ≡ some (ok w)
    → IsOwned w.rows × IsStatedOnce w.rows
unfolding create_project resolve_command
create_project_sound o actor limits request_id request named h =
    let c =
      with_command-IsCreated o actor limits (resolve_command o actor limits request_id request) h in
    let (_, _, h₁) = bind-ok (validate_request_id request_id) _ c.resolved in
    let (command, valid, h₂) =
      bind-ok
        (map_err validation
          (validate_project_create o.is_alphanumeric o.slugify request limits actor.actor))
        _ h₁ in
    let (participants, resolved, h₃) =
      bind-ok
        (resolve_participants o.directory actor command.silicon_ids command.details.carbon_ids) _
        h₂ in
    let created =
      validate_project_create-IsProjectCreateOf o.is_alphanumeric o.slugify request limits
        actor.actor (map_err-ok _ _ valid) in
    let listed =
      creator_participates o.directory actor command named created.creator_listed resolved in
    let same = ok_inj (command, participants) (c.command, c.participants) h₃ in
    write_project_sound o actor c.command c.participants c.seeds
      (subst
        (λ (p : ValidatedProjectCreate × List Actor). contains (uuids p.1) actor.actor.uuid ≡ true)
        same listed)
      c.written

-- A project that `create_project` made for a creator with a public id, and that any run of use
-- cases of any callers has changed since, has its owner as an active member, has no account as an
-- active member twice, and is completed exactly when it has a completion entry, of which it has at
-- most one.
pub created_run :
    (o : Outside) (actor : VerifiedActor) (limits : DomainLimits) (request_id : Text)
    (request : ProjectCreate) {w w' : Work}
    → is_empty actor.actor.id ≡ false
    → create_project o actor limits request_id request ≡ some (ok w)
    → ProjectRun w w'
    → IsOwned w'.rows × IsStatedOnce w'.rows
created_run o actor limits request_id request named h run =
    let (owned, stated) = create_project_sound o actor limits request_id request named h in
    (run-IsOwned run owned, run-IsStatedOnce run stated)
