-- ===== src/Application/Projects/Membership.antt =====
-- The members of a project in src/application/projects.rs: their resolution, and `update_project`.
use silicon_commit.Base.{
  Bool, not, ◌&&◌, ◌||◌, List, [], ◌∷◌, ◌++◌, Option, none, some, if◌then◌else◌, ◌==◌, list_eq,
  nat_eq, contains, any, map, is_empty, ok, err, fail_if, map_err, ◌>>=◌, ◌>>◌,
}
use silicon_commit.Text.{Text, eq_ignore_ascii_case}
use silicon_commit.Domain.Ids.{AccountUuid, ActorId}
use silicon_commit.Domain.Actor.{Actor, ActorType, carbon, silicon, actor_type_eq}
use silicon_commit.Domain.Todo.{Time, is_some}
use silicon_commit.Domain.Validation.{DomainLimits, validation_error, invalid}
use silicon_commit.Domain.Project.{ProjectPatch, ValidatedProjectPatch, validate_project_patch}
use silicon_commit.Domain.Project.Status.{project_status_eq, entry_type_eq}
use silicon_commit.Application.Authorization.{VerifiedActor}
use silicon_commit.Postgres.Projects.{ProjectRows, Circles}
use silicon_commit.Postgres.Projects.Changes.{update_project}
use silicon_commit.Error.{denied, validation, Fallible}
use silicon_commit.Application.Projects.{
  validate_request_id, get_project, authorize_locked_project, ensure_project_remains_terminal,
}

-- The loop of `ensure_unique_members`; `seen` is the hash set.
unfoldable pub see_members : List AccountUuid → List Actor → Fallible (Unit {0})
see_members seen [] = ok tt
see_members seen (m ∷ ms) =
    let rest = see_members (m.uuid ∷ seen) ms in
    if contains seen m.uuid
    then err (validation (validation_error "participants" (invalid "listed more than once")))
    else rest

unfoldable pub ensure_unique_members : List Actor → Fallible (Unit {0})
unfolding see_members
ensure_unique_members = see_members []

-- `is_caller` of `resolve_members`
unfoldable pub is_caller : VerifiedActor → ActorType → ActorId → Bool
is_caller actor kind id =
    actor.actor.actor_type == kind
    && (id == actor.actor.uuid
        || (not (is_empty actor.actor.id) && eq_ignore_ascii_case id actor.actor.id))

unfoldable pub lookup_ids : VerifiedActor → ActorType → List ActorId → List ActorId
unfolding is_caller
lookup_ids actor kind [] = []
lookup_ids actor kind (id ∷ ids) =
    let rest = lookup_ids actor kind ids in if is_caller actor kind id then rest else id ∷ rest

-- The account directory answers for a list of ids of one kind, or fails.
abbrev pub Directory : Type 0
Directory = List ActorId → ActorType → Fallible (List Actor)

-- `resolve_members`: the directory is asked only for the accounts other than the caller.
unfoldable pub resolve_members :
    Directory → VerifiedActor → List ActorId → ActorType → Fallible (List Actor)
unfolding lookup_ids is_caller
resolve_members directory actor ids kind = do
  let others = lookup_ids actor kind ids
  resolved ← if is_empty others then ok [] else directory others kind
  ok (if any (λ id. is_caller actor kind id) ids then actor.actor ∷ resolved else resolved)

-- `resolve_participants`
unfoldable pub resolve_participants :
    Directory → VerifiedActor → List ActorId → List ActorId → Fallible (List Actor)
resolve_participants directory actor silicon_ids carbon_ids = do
  silicons ← resolve_members directory actor silicon_ids silicon
  carbons ← resolve_members directory actor carbon_ids carbon
  let members = silicons ++ carbons
  ensure_unique_members members
  ok members

-- The members of a kind that a snapshot shows
unfoldable pub members_of_kind : ActorType → List Actor → List Actor
members_of_kind kind [] = []
members_of_kind kind (m ∷ ms) =
    let rest = members_of_kind kind ms in if m.actor_type == kind then m ∷ rest else rest

-- One turn of the loop over the two kinds: the members, and those that were resolved
unfoldable pub desired_of_kind :
    Directory
    → VerifiedActor
    → List Actor
    → ActorType
    → Option (List ActorId)
    → Fallible (List Actor × List Actor)
unfolding members_of_kind
desired_of_kind directory actor snapshot kind none = ok (members_of_kind kind snapshot, [])
desired_of_kind directory actor snapshot kind (some ids) = do
  resolved ← resolve_members directory actor ids kind
  ok (resolved, resolved)

abbrev pub uuids : List Actor → List AccountUuid
uuids ms = map (λ (m : Actor). m.uuid) ms

-- The member set of a patch that names one: the loop over the two kinds and its two checks
unfoldable pub replaced_set :
    Directory
    → VerifiedActor
    → List Actor
    → AccountUuid
    → ValidatedProjectPatch
    → Fallible (Option (List Actor) × List Actor)
unfolding desired_of_kind
replaced_set directory actor snapshot owner command = do
  silicons ← desired_of_kind directory actor snapshot silicon command.silicon_ids
  carbons ← desired_of_kind directory actor snapshot carbon command.carbon_ids
  let members = silicons.0 ++ carbons.0
  ensure_unique_members members
  fail_if (not (contains (uuids members) owner))
      (validation (validation_error "participants" (invalid "must keep the project owner")))
  ok (some members, silicons.1 ++ carbons.1)

-- `(participants, newly_resolved)` of `update_project`, from the members and the owner of a snapshot
unfoldable pub desired_members :
    Directory
    → VerifiedActor
    → List Actor
    → AccountUuid
    → ValidatedProjectPatch
    → Fallible (Option (List Actor) × List Actor)
unfolding replaced_set
desired_members directory actor snapshot owner command =
    if is_some command.silicon_ids || is_some command.carbon_ids
    then replaced_set directory actor snapshot owner command
    else ok (none, [])

-- `ensure_reachable`
unfoldable pub ensure_reachable : Circles → AccountUuid → Actor → Fallible (Unit {0})
ensure_reachable db caller target =
    fail_if (target.actor_type == silicon && not (db.may_reach caller target.uuid))
      (denied "silicon_not_reachable")

-- Each member that the snapshot does not show must be reachable.
unfoldable pub ensure_all_reachable :
    Circles → AccountUuid → List AccountUuid → List Actor → Fallible (Unit {0})
unfolding ensure_reachable
ensure_all_reachable db caller known [] = ok tt
ensure_all_reachable db caller known (m ∷ ms) = do
  if contains known m.uuid then ok tt else ensure_reachable db caller m
  ensure_all_reachable db caller known ms

abbrev pub option_uuids : Option (List Actor) → Option (List AccountUuid)
option_uuids none = none
option_uuids (some ms) = some (uuids ms)

-- `update_project` from the validated command on. `snapshot` are the rows read before the lock, with
-- its members; `s` are the rows under the lock.
unfoldable pub update_members :
    Directory
    → Circles
    → VerifiedActor
    → ProjectRows
    → List Actor
    → ValidatedProjectPatch
    → Time
    → ProjectRows
    → Fallible ProjectRows
update_members directory db actor snapshot shown command now s = do
  seen ← get_project db actor.actor.uuid snapshot
  ensure_project_remains_terminal seen.project.status command
  desired ← desired_members directory actor shown seen.project.owner_account command
  locked ← authorize_locked_project db actor.actor.uuid s
  ensure_project_remains_terminal locked.status command
  ensure_all_reachable db actor.actor.uuid (uuids shown) desired.1
  update_project actor.actor.uuid locked command (option_uuids desired.0) now s

-- `ProjectService::update_project` where no response is stored
unfoldable pub update_request :
    Directory
    → Circles
    → VerifiedActor
    → DomainLimits
    → Text
    → ProjectRows
    → List Actor
    → ProjectPatch
    → Time
    → ProjectRows
    → Fallible ProjectRows
update_request directory db actor limits request_id snapshot shown request now s = do
  validate_request_id request_id
  command ← map_err validation (validate_project_patch request limits)
  update_members directory db actor snapshot shown command now s
