-- ===== src/Examples/Creations.antt =====
-- A project from its creation to its completion, and the tag of its diary, on concrete inputs
-- (src/application/projects.rs, src/api/extract.rs).
use silicon_commit.Base.{
  ◌≡◌, refl, [], ◌∷◌, none, some, ok, pos, list_eq, nat_eq, option_beq, list_beq,
}
use silicon_commit.Base.{err, arith, nat_beq, if◌then◌else◌}
use silicon_commit.Api.IfMatch.{etag, parse_if_match, parse_notification_if_match, invalid_if_match}
use silicon_commit.Api.IfMatch.Laws.{parse_if_match-etag}
use silicon_commit.Text.{
  chars, trim, trim_start, trim_end, is_whitespace, is_control, starts_with, byte_len, utf8_width,
}
use silicon_commit.Domain.Actor.{actor_type_beq}
use silicon_commit.Domain.Validation.{
  default_limits, required_text, limited_text, ensure_item_count, ensure_unique, observe,
}
use silicon_commit.Domain.Project.{validate_project_create, validate_details}
use silicon_commit.Domain.Project.Slug.{
  slug_from_name, project_slug, shortened, ends_with, str_contains, is_slug_character,
}
use silicon_commit.Domain.Project.Status.{project_status_beq, entry_type_beq}
use silicon_commit.Domain.Project.Uid.{new_uid}
use silicon_commit.Domain.Project.Tasks.{ValidatedProjectEntryCreate}
use silicon_commit.Postgres.Projects.{can_write, ProjectRows, lock_project}
use silicon_commit.Postgres.Projects.Changes.{touch_project}
use silicon_commit.Postgres.Projects.Journal.{insert_entry, completion_exists}
use silicon_commit.Postgres.Projects.Rows.RoundTrip.{row_of}
use silicon_commit.Application.Projects.Seeds.{prepare_seed_tasks}
use silicon_commit.Examples.Projects.{worker, owner, caller, circles}
use silicon_commit.Postgres.Projects.{next_project_created_at}
use silicon_commit.Postgres.Projects.Changes.{insert_project, add_member, insert_missing_members}
use silicon_commit.Postgres.Projects.Tasks.{Work}
use silicon_commit.Text.{eq_ignore_ascii_case}
use silicon_commit.Domain.Project.Status.{completed, completion}
use silicon_commit.Application.Projects.{
  create_entry, authorize_locked_project, validate_request_id,
}
use silicon_commit.Application.Projects.Membership.{
  resolve_participants, resolve_members, lookup_ids, is_caller, ensure_unique_members, see_members,
  ensure_all_reachable, ensure_reachable,
}
use silicon_commit.Application.Projects.Seeds.{
  collect_checked, collect, scan, push_scan, push_pending,
}
use silicon_commit.Application.Projects.Creation.{
  Outside, create_project, resolve_command, write_project, insert_seeds,
}
use silicon_commit.Application.Projects.Creation.Sound.{created_run}
use silicon_commit.Application.Projects.Updates.{IsOwned}
use silicon_commit.Application.Projects.Lifecycle.{IsStatedOnce}
use silicon_commit.Application.Projects.Runs.{start, next, appended}
use silicon_commit.Examples.Proposals.{
  is_alphanumeric, slugify, creation, accepted_creation, directory,
}

abbrev outside : Outside
outside = record {
  is_alphanumeric = is_alphanumeric;
  slugify = slugify;
  directory = λ ids kind. ok (worker ∷ []);
  directory_of_one = directory;
  circles = circles;
  fresh_project = 1;
  fresh_task = λ n. n;
  fresh_todo = λ n. n;
  same_slug = [];
  now = 1000000;
}

abbrev created_rows : ProjectRows
created_rows =
    insert_project (chars "own") 1 accepted_creation
      (new_uid (chars "road-map") (chars "c:own") (pos 1000000)) 1000000 1000000
      (chars "wrk" ∷ chars "own" ∷ [])

abbrev created_work : Work
created_work = record { rows = created_rows; tasks = []; todos = [] }

project-created :
    create_project outside (caller owner) default_limits (chars "r-1") creation
    ≡ some (ok created_work)
unfolding create_project resolve_command write_project insert_seeds validate_request_id
    resolve_participants resolve_members lookup_ids is_caller ensure_unique_members see_members
    ensure_all_reachable ensure_reachable prepare_seed_tasks collect_checked collect scan push_scan
    push_pending eq_ignore_ascii_case next_project_created_at validate_project_create
    validate_details slug_from_name project_slug shortened ends_with str_contains is_slug_character
    required_text limited_text ensure_item_count ensure_unique observe trim trim_start trim_end
    is_whitespace list_beq actor_type_beq starts_with byte_len utf8_width is_control
project-created = refl

abbrev update_entry : ValidatedProjectEntryCreate
update_entry = record {
  entry_type = completion;
  title = chars "Done";
  description = [];
  status = none;
}

abbrev completed_rows : ProjectRows
completed_rows = record created_rows {
  project = record created_rows.project { status = completed; updated_at = 2000000 };
  entries = row_of (chars "own") 9 update_entry 2000000 ∷ [];
}

project-completed :
    create_entry circles (chars "own") 9 update_entry 2000000 created_rows
    ≡ ok (row_of (chars "own") 9 update_entry 2000000, completed_rows)
unfolding create_entry insert_entry completion_exists touch_project authorize_locked_project
    lock_project can_write list_beq entry_type_beq project_status_beq insert_project
    insert_missing_members add_member option_beq
project-completed = refl

abbrev completed_work : Work
completed_work = record created_work { rows = completed_rows }

created_run_example : IsOwned completed_rows × IsStatedOnce completed_rows
created_run_example =
    created_run outside (caller owner) default_limits (chars "r-1") creation refl project-created (
      next start
        (appended circles (chars "own") 9 update_entry 2000000 _ completed_rows project-completed))

-- The entity tag of the second version of a diary
parse_if_match-etag_example :
    (parse_notification_if_match (etag (pos 2)) ≡ ok 2)
    × (parse_if_match (etag (pos 2)) ≡ (if nat_beq 2 0 then err invalid_if_match else ok 2))
parse_if_match-etag_example = parse_if_match-etag 2 (omega arith)
