-- ===== src/Examples/Proposals.antt =====
-- Requests on projects, their initial tasks and their stored responses on concrete inputs
-- (src/domain/project.rs, src/application/projects/collaboration.rs,
-- src/infrastructure/postgres/projects.rs).
use silicon_commit.Base.{
  ℕ, ◌≤◌, ◌≡◌, ◌⊎◌, refl, Bool, true, List, [], ◌∷◌, Option, none, some, ok, err, arith, pos,
  list_eq, nat_eq, list_beq, if◌then◌else◌,
}
use silicon_commit.Text.{
  Text, chars, trim, trim_start, trim_end, is_whitespace, is_control, starts_with, byte_len,
  utf8_width,
}
use silicon_commit.Domain.Ids.{actor_id, normalize_public_id}
use silicon_commit.Domain.Ids.Laws.{actor_id-IsPublicId}
use silicon_commit.Domain.Actor.{Actor, carbon, actor_type_beq}
use silicon_commit.Domain.Todo.Status.{yet_to_do}
use silicon_commit.Domain.Validation.{
  default_limits, required_text, limited_text, ensure_item_count, ensure_unique, observe,
}
use silicon_commit.Domain.Project.{
  ProjectDetails, ProjectCreate, ValidatedProjectCreate, ProjectPatch, ValidatedProjectPatch,
  ProjectSeedTask, SeedTasks, seed, no_seeds, more_seeds, validate_project_create,
  validate_project_patch, validate_details, is_empty_project_patch,
}
use silicon_commit.Domain.Project.Laws.{
  IsProjectCreateOf, validate_project_create-IsProjectCreateOf,
}
use silicon_commit.Domain.Project.Laws.Patch.{
  IsProjectPatchOf, validate_project_patch-IsProjectPatchOf,
}
use silicon_commit.Domain.Project.Slug.{
  ProjectSlug, slug_from_name, project_slug, shortened, pop_dashes, ends_with, str_contains,
  is_slug_character,
}
use silicon_commit.Domain.Project.Slug.Laws.{IsSlug, IsSlugified, slug_from_name_total}
use silicon_commit.Domain.Project.Status.{in_progress, blocker, open_blocker, project_status_beq}
use silicon_commit.Domain.Project.Uid.{project_uid, new_uid, project_locator, ProjectLocator, id}
use silicon_commit.Domain.Project.Uid.Laws.{project_uid-new_uid}
use silicon_commit.Domain.Project.Tasks.{BlockerCreate, ValidatedProjectEntryCreate}
use silicon_commit.Postgres.Projects.{ProjectRows}
use silicon_commit.Postgres.Projects.Changes.{touch_project}
use silicon_commit.Postgres.Projects.Rows.{AccountColumns}
use silicon_commit.Postgres.Projects.Rows.RoundTrip.{row_of}
use silicon_commit.Postgres.Idempotency.{
  replayed_response, MutationIdentity, IdempotencyRecord, load_idempotency_record, delete_expired,
  select_active, in_scope,
}
use silicon_commit.Application.Projects.Seeds.{
  Seed, prepare_seed_tasks, too_many_tasks, too_many_assignees,
}
use silicon_commit.Application.Projects.Seeds.Order.{
  size, size_all, shallow, shallow_all, place_all,
}
use silicon_commit.Application.Projects.Seeds.Prepared.{
  prepare_all, prepare_seed_tasks_outcomes, prepare_seed_tasks_small,
}
use silicon_commit.Application.Projects.Replays.{
  is_shown, of_body, acquire_idempotency, acquire_idempotency-readable,
}
use silicon_commit.Examples.Projects.{owner, caller, circles, rows}
use silicon_commit.Error.{Fallible, not_found}

-- Every character is alphanumeric, and every name has the same slug.
abbrev pub is_alphanumeric : ℕ → Bool
is_alphanumeric c = true

abbrev pub slugify : Text → Text
slugify t = chars "road-map"

slugify-IsSlugified : (t : Text) → IsSlugified (slugify t)
unfolding ends_with str_contains is_slug_character list_beq starts_with
slugify-IsSlugified t = record { no_first = refl; no_last = refl; no_double = refl; simple = refl }

slug_from_name_total_example :
    (slug : ProjectSlug) × (slug_from_name is_alphanumeric slugify (chars "Road Map") ≡ ok slug)
    × IsSlug slug
    × (project_slug slug ≡ ok slug)
slug_from_name_total_example =
    slug_from_name_total is_alphanumeric slugify slugify-IsSlugified (chars "Road Map")

road_map-IsSlug : IsSlug (chars "road-map")
unfolding ends_with str_contains is_slug_character list_beq starts_with
road_map-IsSlug = record {
  filled = refl;
  fits = omega arith;
  no_first = refl;
  no_last = refl;
  no_double = refl;
  simple = refl;
}

owner-accepted : actor_id (chars "c:own") ≡ ok (chars "c:own")
unfolding actor_id normalize_public_id trim trim_start trim_end is_whitespace is_control
owner-accepted = refl

project_uid-new_uid_example :
    project_uid (new_uid (chars "road-map") (chars "c:own") (pos 1700000000000000000))
    ≡ ok (new_uid (chars "road-map") (chars "c:own") (pos 1700000000000000000))
project_uid-new_uid_example =
    project_uid-new_uid (chars "road-map") (chars "c:own") (pos 1700000000000000000) road_map-IsSlug
      (actor_id-IsPublicId (chars "c:own") owner-accepted).0 (omega arith)

abbrev details : ProjectDetails
details = record { description = []; attachments = []; private = true; carbon_ids = [] }

abbrev pub creation : ProjectCreate
creation = record {
  name = chars " Road Map ";
  silicon_ids = chars "si:wrk" ∷ [];
  details = details;
  tasks = no_seeds;
}

abbrev pub accepted_creation : ValidatedProjectCreate
accepted_creation = record {
  name = chars "Road Map";
  slug = chars "road-map";
  silicon_ids = chars "si:wrk" ∷ [];
  details = record details { carbon_ids = chars "c:own" ∷ [] };
  tasks = no_seeds;
}

creation-accepted :
    validate_project_create is_alphanumeric slugify creation default_limits owner
    ≡ ok accepted_creation
unfolding validate_project_create validate_details slug_from_name project_slug shortened pop_dashes
    ends_with str_contains is_slug_character required_text limited_text ensure_item_count
    ensure_unique observe trim trim_start trim_end is_whitespace list_beq actor_type_beq starts_with
    byte_len utf8_width
creation-accepted = refl

validate_project_create-IsProjectCreateOf_example :
    IsProjectCreateOf is_alphanumeric slugify default_limits owner creation accepted_creation
validate_project_create-IsProjectCreateOf_example =
    validate_project_create-IsProjectCreateOf is_alphanumeric slugify creation default_limits owner
      creation-accepted

abbrev patch : ProjectPatch
patch = record {
  name = none;
  status = some in_progress;
  silicon_ids = some (chars "si:wrk" ∷ []);
  description = none;
  attachments = none;
  private = none;
  carbon_ids = none;
}

abbrev accepted_patch : ValidatedProjectPatch
accepted_patch = record {
  name = none;
  status = some in_progress;
  silicon_ids = some (chars "si:wrk" ∷ []);
  description = none;
  attachments = none;
  private = none;
  carbon_ids = none;
}

patch-accepted : validate_project_patch patch default_limits ≡ ok accepted_patch
unfolding validate_project_patch is_empty_project_patch validate_details limited_text
    ensure_item_count ensure_unique observe list_beq project_status_beq
patch-accepted = refl

validate_project_patch-IsProjectPatchOf_example :
    IsProjectPatchOf default_limits patch accepted_patch
validate_project_patch-IsProjectPatchOf_example =
    validate_project_patch-IsProjectPatchOf patch default_limits patch-accepted

-- A task with a subtask, and a task
abbrev subtask : ProjectSeedTask
subtask = seed (chars "Draft") [] yet_to_do (some (chars "c:own")) no_seeds

abbrev tasks : SeedTasks
tasks =
    more_seeds (seed (chars "Write") [] yet_to_do none (more_seeds subtask no_seeds))
      (more_seeds (seed (chars "Send") [] yet_to_do none no_seeds) no_seeds)

abbrev pub directory : Text → Fallible Actor
directory a = err not_found

abbrev prepared : Option (Fallible (List Seed))
prepared = prepare_seed_tasks directory (caller owner) default_limits (λ n. n) tasks

abbrev expected : Option (Fallible (List Seed))
expected = some (
    prepare_all directory (caller owner) default_limits (λ n. n) (place_all (λ n. n) tasks none 0)
      [])

prepare_seed_tasks_outcomes_example :
    ((size_all tasks ≤ 1000) × (shallow_all tasks 1 ≡ true) × (prepared ≡ expected))
    ⊎ (prepared ≡ some (err too_many_tasks))
    ⊎ (prepared ≡ some (err too_many_assignees))
prepare_seed_tasks_outcomes_example =
    prepare_seed_tasks_outcomes directory (caller owner) default_limits (λ n. n) tasks

few_tasks : size_all tasks ≤ 100
unfolding size size_all
few_tasks = omega arith

shallow_tasks : shallow_all tasks 1 ≡ true
unfolding shallow shallow_all
shallow_tasks = refl

prepare_seed_tasks_small_example : prepared ≡ expected
prepare_seed_tasks_small_example =
    prepare_seed_tasks_small directory (caller owner) default_limits (λ n. n) tasks few_tasks
      shallow_tasks

abbrev blocked_entry : ValidatedProjectEntryCreate
blocked_entry = record {
  entry_type = blocker;
  title = chars "Stuck";
  description = chars "No key";
  status = some open_blocker;
}

abbrev columns : AccountColumns
columns = record { uuid = chars "own"; kind = carbon; public_id = chars "c:own" }

abbrev blocked_request : BlockerCreate
blocked_request = record {
  title = chars " Stuck ";
  description = chars "No key";
  status = open_blocker;
}

abbrev blocked_rows : ProjectRows
blocked_rows = record rows {
  project = touch_project 6 rows.project;
  entries = row_of (chars "own") 4 blocked_entry 6 ∷ [];
}

abbrev parse_uuid : Text → Option ℕ
parse_uuid t = if list_beq t (chars "7") then some 7 else none

abbrev body_id : Text → Option Text
body_id t = some t

abbrev find : ProjectLocator → Option ProjectRows
find l = some rows

-- A creation that was answered before, with the id of its project in the body
abbrev identity : MutationIdentity
identity = record {
  operation = "createProject";
  resource_path = chars "/projects";
  key = chars "request-1";
  fingerprint = 1 ∷ [];
}

abbrev stored : IdempotencyRecord
stored = record {
  actor_account = chars "own";
  operation = "createProject";
  resource_path = chars "/projects";
  idempotency_key = chars "request-1";
  request_fingerprint = 1 ∷ [];
  response_status = 201;
  response_body = chars "7";
  expires_at = 100;
}

stored-loaded : (load_idempotency_record (chars "own") identity 50 (stored ∷ [])).0 ≡ some stored
unfolding load_idempotency_record delete_expired select_active in_scope list_beq
stored-loaded = refl

seven-located : project_locator parse_uuid (chars "7") ≡ ok (id 7)
unfolding project_locator list_beq
seven-located = refl

acquire_idempotency-readable_example :
    acquire_idempotency parse_uuid body_id find circles (chars "own") identity 50 (stored ∷ []) ≡ (
      if is_shown find circles (chars "own") (id 7)
      then ok (
        some (replayed_response stored),
        (load_idempotency_record (chars "own") identity 50 (stored ∷ [])).1,
      )
      else err not_found)
acquire_idempotency-readable_example =
    acquire_idempotency-readable parse_uuid body_id find circles (chars "own") identity 50
      (stored ∷ []) stored (id 7) stored-loaded refl
      (of_body (chars "7") refl refl refl seven-located)
