-- ===== src/Application/Projects/Tasks/Requests.antt =====
-- `claim_task` of src/application/projects/collaboration.rs with the store of responses, and
-- `save_idempotency` of src/infrastructure/postgres/projects.rs. A claim that fails leaves the store
-- and the project as they were; the audit event is left out.
use silicon_commit.Base.{
  ◌+◌, ◌*◌, false, List, ◌∷◌, Option, none, some, ok, ltb, fail_if, ok_or, ◌>>=◌, ◌>>◌,
}
use silicon_commit.Text.{Text}
use silicon_commit.Config.{Duration, as_millis}
use silicon_commit.Domain.Ids.{AccountUuid, ProjectTaskId, TodoId, Uuid}
use silicon_commit.Domain.Todo.{Time}
use silicon_commit.Domain.Notification.Version.{i64_max}
use silicon_commit.Domain.Project.Uid.{ProjectLocator}
use silicon_commit.Postgres.Idempotency.{
  MutationIdentity, MutationResponse, IdempotencyRecord, any_in_scope,
}
use silicon_commit.Postgres.Projects.{Circles, ProjectRows}
use silicon_commit.Postgres.Projects.Tasks.{Work, TaskRow}
use silicon_commit.Application.Authorization.{VerifiedActor}
use silicon_commit.Application.Projects.{validate_request_id, authorize_locked_project}
use silicon_commit.Application.Projects.Replays.{acquire_idempotency}
use silicon_commit.Application.Projects.Tasks.{claim_open}
use silicon_commit.Error.{internal, Fallible}

-- `save_idempotency`; a second row of a scope violates the unique constraint.
unfoldable pub save_idempotency :
    AccountUuid
    → MutationIdentity
    → MutationResponse
    → Duration
    → Time
    → List IdempotencyRecord
    → Fallible (List IdempotencyRecord)
save_idempotency actor m response ttl now rows = do
  fail_if (ltb 32767 response.status) (internal "idempotency response status is invalid")
  fail_if (ltb i64_max (as_millis ttl)) (internal "idempotency retention duration is too large")
  fail_if (ltb (as_millis ttl) 1) (internal "idempotency retention duration must be positive")
  fail_if (any_in_scope actor m rows) (internal "unique constraint")
  ok (
      record {
        actor_account = actor;
        operation = m.operation;
        resource_path = m.resource_path;
        idempotency_key = m.key;
        request_fingerprint = m.fingerprint;
        response_status = response.status;
        response_body = response.body;
        expires_at = now + as_millis ttl * 1000000;
      }
      ∷ rows)

-- One request to claim a task, with what the database answers while it is served
pub record ClaimRequest : Type 0 where
  pub db : Circles
  pub find : ProjectLocator → Option ProjectRows
  pub actor : VerifiedActor
  pub request_id : Text
  pub identity : MutationIdentity
  pub fresh : TodoId
  pub now : Time

module _ (parse_uuid : Text → Option Uuid) (body_id : Text → Option Text)
    (to_json : TaskRow → Option Text) (ttl : Duration) (task_id : ProjectTaskId) where
  -- `created_response` with status 200, stored for the next request of the same key
  unfoldable pub store_claim :
      ClaimRequest
      → List IdempotencyRecord
      → TaskRow × Work
      → Fallible (MutationResponse × List IdempotencyRecord × Work)
  unfolding save_idempotency
  store_claim q records claimed = do
    body ← ok_or (to_json claimed.0) (internal "project response serialization failed")
    let response : MutationResponse = record { status = 200; body = body; replayed = false }
    records' ← save_idempotency q.actor.actor.uuid q.identity response ttl q.now records
    ok (response, records', claimed.1)

  -- A stored response is the answer; otherwise the task is claimed.
  unfoldable pub answer_claim :
      ClaimRequest
      → Work
      → Option MutationResponse × List IdempotencyRecord
      → Fallible (MutationResponse × List IdempotencyRecord × Work)
  unfolding store_claim
  answer_claim q w (some response, records) = ok (response, records, w)
  answer_claim q w (none, records) =
      claim_open q.db q.actor task_id q.fresh q.now w >>= store_claim q records

  -- `ProjectService::claim_task`
  unfoldable pub claim_request :
      ClaimRequest
      → List IdempotencyRecord
      → Work
      → Fallible (MutationResponse × List IdempotencyRecord × Work)
  unfolding answer_claim
  claim_request q records w = do
    validate_request_id q.request_id
    locked ← authorize_locked_project q.db q.actor.actor.uuid w.rows
    acquired ←
        acquire_idempotency parse_uuid body_id q.find q.db q.actor.actor.uuid q.identity q.now
          records
    answer_claim q w acquired
