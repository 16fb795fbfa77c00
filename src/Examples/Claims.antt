-- ===== src/Examples/Claims.antt =====
-- Requests to claim a task on concrete inputs (`claim_task` of
-- src/application/projects/collaboration.rs).
use silicon_commit.Base.{
  ◌≡◌, ◌⊎◌, refl, true, List, [], ◌∷◌, Option, none, some, ok, err, option_beq, if◌then◌else◌,
  list_eq, nat_eq, list_beq,
}
use silicon_commit.Text.{
  Text, chars, byte_len, trim, trim_start, trim_end, is_whitespace, is_control, utf8_width,
}
use silicon_commit.Domain.Actor.{Actor, actor_type_beq}
use silicon_commit.Domain.Project.Status.{project_status_eq, entry_type_eq}
use silicon_commit.Postgres.Projects.{can_write, can_read, lock_project}
use silicon_commit.Postgres.Projects.Changes.{add_member}
use silicon_commit.Postgres.Projects.Tasks.{
  Work, TaskRow, fetch_task_by_id, update_row, set_assignee, insert_work_todo, sync_task, sync_todo,
}
use silicon_commit.Application.Projects.{authorize_locked_project, validate_request_id}
use silicon_commit.Application.Projects.Membership.{ensure_reachable}
use silicon_commit.Application.Projects.Tasks.{assign_task, assign_found, claim_open}
use silicon_commit.Application.Projects.Tasks.Requests.{
  ClaimRequest, save_idempotency, store_claim, answer_claim, claim_request,
}
use silicon_commit.Application.Projects.Tasks.Exclusive.{
  Desk, serve_claims, IsAssignedTo, serve_claims-exclusive,
}
use silicon_commit.Application.Projects.Replays.{
  ensure_readable, first_segment, parsed_locator, path_locator, replay_locator, acquire_idempotency,
  replay_from_record, ensure_replayable,
}
use silicon_commit.Postgres.Idempotency.{
  MutationResponse, IdempotencyRecord, load_idempotency_record, in_scope, delete_expired,
  select_active,
}
use silicon_commit.Domain.Attachment.{strip_prefix}
use silicon_commit.Domain.Project.Uid.{project_locator}
use silicon_commit.Domain.Ids.{AccountUuid, TodoId, Uuid}
use silicon_commit.Domain.Todo.{Time}
use silicon_commit.Config.{second}
use silicon_commit.Error.{Fallible}
use silicon_commit.Examples.Projects.{owner, worker, caller, circles, rows, work}

abbrev wants : Actor → TodoId → Time → ClaimRequest
wants a fresh now = record {
  db = circles;
  find = λ l. some rows;
  actor = caller a;
  request_id = chars "r-1";
  identity = record {
    operation = "claimProjectTask";
    resource_path = chars "/projects/1/tasks/5/claim";
    key = chars "key";
    fingerprint = 3 ∷ [];
  };
  fresh = fresh;
  now = now;
}

-- The worker claims the open task, the owner claims it too, and the worker sends its request again.
abbrev claims : List ClaimRequest
claims = wants worker 7 2 ∷ wants owner 8 3 ∷ wants worker 9 4 ∷ []

abbrev parse_one : Text → Option Uuid
parse_one s = if list_beq s (chars "1") then some 1 else none

abbrev no_id : Text → Option Text
no_id s = none

abbrev task_json : TaskRow → Option Text
task_json t = some t.title

abbrev outcome : Desk × List AccountUuid
outcome = serve_claims parse_one no_id task_json second 5 claims ([], work)

-- The worker alone gets the task.
claims-served : outcome.1 ≡ worker.uuid ∷ []
unfolding claim_request answer_claim store_claim save_idempotency acquire_idempotency
    ensure_replayable replay_from_record load_idempotency_record validate_request_id claim_open
    assign_task assign_found set_assignee insert_work_todo sync_task sync_todo update_row
    fetch_task_by_id add_member ensure_reachable authorize_locked_project lock_project can_write
    list_beq option_beq actor_type_beq byte_len trim trim_start trim_end is_whitespace is_control
    utf8_width in_scope strip_prefix project_locator ensure_readable first_segment parsed_locator
    path_locator replay_locator delete_expired select_active can_read
claims-served = refl

abbrev response_of :
    Fallible (MutationResponse × List IdempotencyRecord × Work) → Option MutationResponse
response_of (err e) = none
response_of (ok (response, records, w)) = some response

-- The worker repeats its request, and is answered from the store.
repeated-answered :
    response_of
      (claim_request parse_one no_id task_json second 5 (wants worker 9 4) outcome.0.0 outcome.0.1)
    ≡ some (record { status = 200; body = chars "Task"; replayed = true })
unfolding claim_request answer_claim store_claim save_idempotency acquire_idempotency
    ensure_replayable replay_from_record load_idempotency_record validate_request_id claim_open
    assign_task assign_found set_assignee insert_work_todo sync_task sync_todo update_row
    fetch_task_by_id add_member ensure_reachable authorize_locked_project lock_project can_write
    list_beq option_beq actor_type_beq byte_len trim trim_start trim_end is_whitespace is_control
    utf8_width in_scope strip_prefix project_locator ensure_readable first_segment parsed_locator
    path_locator replay_locator delete_expired select_active can_read
repeated-answered = refl

serve_claims-exclusive_example :
    ((outcome.1 ≡ []) × (work ≡ outcome.0.1))
    ⊎ ((a : AccountUuid) × (outcome.1 ≡ a ∷ []) × IsAssignedTo 5 a outcome.0.1)
serve_claims-exclusive_example =
    serve_claims-exclusive parse_one no_id task_json second 5 claims ([], work)
