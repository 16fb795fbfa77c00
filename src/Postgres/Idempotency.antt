-- ===== src/Postgres/Idempotency.antt =====
-- The stored responses of idempotent requests: `load_idempotency_record` and
-- `insert_idempotency_record` of src/infrastructure/postgres/todos.rs, and `replay_on_connection` of
-- src/application/todos.rs. The table is a list of rows with one row for a scope; `now` is
-- `transaction_timestamp()`. A response body is a text.
pub mod Replay
use silicon_commit.Base.{
  ℕ, ◌+◌, ◌*◌, Bool, true, false, not, ◌&&◌, List, [], ◌∷◌, Option, none, some, if◌then◌else◌, ltb,
  leb, is_empty, ◌==◌, ◌!=◌, Eq, list_eq, nat_eq, string_eq, String, Result, ok, err, fail_if,
  ◌>>=◌, ◌>>◌,
}
use silicon_commit.Text.{Text}
use silicon_commit.Config.{Duration, second, as_secs}
use silicon_commit.Domain.Ids.{AccountUuid, TodoId}
use silicon_commit.Domain.Todo.{Time}
use silicon_commit.Domain.Notification.Version.{i64_max}
use silicon_commit.Application.Idempotency.{IdempotencyKey}
use silicon_commit.Error.{AppError, internal, conflict, not_found, Fallible}

-- `MutationIdentity`; the fingerprint is its 32 bytes.
pub record MutationIdentity : Type 0 where
  pub operation : String
  pub resource_path : Text
  pub key : IdempotencyKey
  pub fingerprint : List ℕ

-- `MutationResponse`
pub record MutationResponse : Type 0 where
  pub status : ℕ
  pub body : Text
  pub replayed : Bool

-- A row of `commit.idempotency_records`
pub record IdempotencyRecord : Type 0 where
  pub actor_account : AccountUuid
  pub operation : String
  pub resource_path : Text
  pub idempotency_key : IdempotencyKey
  pub request_fingerprint : List ℕ
  pub response_status : ℕ
  pub response_body : Text
  pub expires_at : Time

-- The four columns of the unique constraint
unfoldable pub in_scope : AccountUuid → MutationIdentity → IdempotencyRecord → Bool
in_scope actor m r =
    r.actor_account == actor
    && r.operation == m.operation
    && r.resource_path == m.resource_path
    && r.idempotency_key == m.key

-- The `DELETE` of `load_idempotency_record`
unfoldable pub delete_expired :
    AccountUuid → MutationIdentity → Time → List IdempotencyRecord → List IdempotencyRecord
delete_expired actor m now [] = []
delete_expired actor m now (r ∷ rs) =
    let rest = delete_expired actor m now rs in
    if in_scope actor m r && leb r.expires_at now then rest else r ∷ rest

-- The `SELECT` of `load_idempotency_record`
unfoldable pub select_active :
    AccountUuid → MutationIdentity → Time → List IdempotencyRecord → Option IdempotencyRecord
select_active actor m now [] = none
select_active actor m now (r ∷ rs) =
    let rest = select_active actor m now rs in
    if in_scope actor m r && ltb now r.expires_at then some r else rest

unfoldable pub load_idempotency_record :
    AccountUuid
    → MutationIdentity
    → Time
    → List IdempotencyRecord
    → Option IdempotencyRecord × List IdempotencyRecord
unfolding delete_expired select_active
load_idempotency_record actor m now rows =
    let kept = delete_expired actor m now rows in (select_active actor m now kept, kept)

abbrev pub any_in_scope : AccountUuid → MutationIdentity → List IdempotencyRecord → Bool
any_in_scope actor m [] = false
any_in_scope actor m (r ∷ rs) = if in_scope actor m r then true else any_in_scope actor m rs

-- `insert_idempotency_record`; a second row of a scope violates the unique constraint.
unfoldable pub insert_idempotency_record :
    AccountUuid
    → MutationIdentity
    → MutationResponse
    → Duration
    → Time
    → List IdempotencyRecord
    → Fallible (List IdempotencyRecord)
insert_idempotency_record actor m response ttl now rows = do
  fail_if (ltb i64_max (as_secs ttl)) (internal "out of range")
  fail_if (ltb (as_secs ttl) 1) (internal "idempotency TTL must be at least one second")
  fail_if (ltb 32767 response.status) (internal "out of range")
  fail_if (any_in_scope actor m rows) (internal "unique constraint")
  ok (
      record {
        actor_account = actor;
        operation = m.operation;
        resource_path = m.resource_path;
        idempotency_key = m.key;
        request_fingerprint = m.fingerprint;
        response_status = response.status;
        response_body = response.body;
        expires_at = now + as_secs ttl * second;
      }
      ∷ rows)

-- `MutationResponse::replayed` of the stored columns
abbrev pub replayed_response : IdempotencyRecord → MutationResponse
replayed_response r = record { status = r.response_status; body = r.response_body; replayed = true }

-- The rest of `replay_on_connection` for the record that was found: `hidden` says that the todo of a
-- stored response is live and no longer visible to the caller.
unfoldable pub answer_stored :
    (MutationIdentity → IdempotencyRecord → Bool)
    → MutationIdentity
    → List IdempotencyRecord
    → Option IdempotencyRecord
    → Fallible (Option MutationResponse × List IdempotencyRecord)
answer_stored hidden m kept none = ok (none, kept)
answer_stored hidden m kept (some r) = do
  fail_if (r.request_fingerprint != m.fingerprint) (conflict "idempotency_key_reused")
  fail_if (hidden m r) not_found
  ok (some (replayed_response r), kept)

unfoldable pub replay_on_connection :
    (MutationIdentity → IdempotencyRecord → Bool)
    → AccountUuid
    → MutationIdentity
    → Time
    → List IdempotencyRecord
    → Fallible (Option MutationResponse × List IdempotencyRecord)
unfolding answer_stored
replay_on_connection hidden actor m now rows =
    let loaded = load_idempotency_record actor m now rows in
    answer_stored hidden m loaded.1 loaded.0
