-- ===== src/Postgres/Idempotency/Replay.antt =====
-- A stored response answers the same request until it expires.
use silicon_commit.Base.{
  Option, some, list_beq_iff, if◌then◌else◌, ◌==◌, list_eq, nat_eq, ◌+◌, ◌*◌, ◌<◌, ◌≡◌, refl, ap,
  ◌∙◌, Bool, true, false, ◌&&◌, List, ◌∷◌, some, leb, lt→ltb, list_eq, nat_eq, string_eq, ok, err,
  arith, beq_refl,
}
use silicon_commit.Config.{Duration, second, as_secs}
use silicon_commit.Domain.Ids.{AccountUuid}
use silicon_commit.Domain.Todo.{Time}
use silicon_commit.Postgres.Idempotency.{
  MutationIdentity, MutationResponse, IdempotencyRecord, in_scope, delete_expired, select_active,
  load_idempotency_record, insert_idempotency_record, answer_stored, replay_on_connection,
  replayed_response,
}
use silicon_commit.Error.{Fallible, conflict}

abbrev pub stored_row : AccountUuid → MutationIdentity → MutationResponse → Time → IdempotencyRecord
stored_row actor m response expires = record {
  actor_account = actor;
  operation = m.operation;
  resource_path = m.resource_path;
  idempotency_key = m.key;
  request_fingerprint = m.fingerprint;
  response_status = response.status;
  response_body = response.body;
  expires_at = expires;
}

-- A request of the same scope, whatever its document is.
pub record IsSameScope (m n : MutationIdentity) : Type 0 where
  pub operation : m.operation ≡ n.operation
  pub resource_path : m.resource_path ≡ n.resource_path
  pub key : m.key ≡ n.key

inserted :
    (actor : AccountUuid) (m : MutationIdentity) (response : MutationResponse) (ttl : Duration)
    (now : Time) (rows : List IdempotencyRecord) {rows' : List IdempotencyRecord}
    → insert_idempotency_record actor m response ttl now rows ≡ ok rows'
    → rows' ≡ stored_row actor m response (now + as_secs ttl * second) ∷ rows
unfolding insert_idempotency_record
inserted actor m response ttl now rows h = ground arith

scope_of_row :
    (actor : AccountUuid) (m n : MutationIdentity) (response : MutationResponse) (at : Time)
    → IsSameScope m n
    → in_scope actor n (stored_row actor m response at) ≡ true
unfolding in_scope
scope_of_row actor m n response at s =
    rw
      (
        s.operation,
        s.resource_path,
        s.key,
        beq_refl actor,
        beq_refl n.operation,
        beq_refl n.resource_path,
        beq_refl n.key,
      )
      refl

kept :
    (actor : AccountUuid) (n : MutationIdentity) (now : Time) (r : IdempotencyRecord)
    (rows : List IdempotencyRecord)
    → now < r.expires_at
    → delete_expired actor n now (r ∷ rows) ≡ r ∷ delete_expired actor n now rows
unfolding delete_expired
kept actor n now r rows h =
    rw (and_false (in_scope actor n r) (leb r.expires_at now) (ground arith)) refl
  where
    and_false : (a b : Bool) → b ≡ false → (a && b) ≡ false
    and_false a b h = ground arith

active :
    (actor : AccountUuid) (n : MutationIdentity) (now : Time) (r : IdempotencyRecord)
    (rows : List IdempotencyRecord)
    → in_scope actor n r ≡ true
    → now < r.expires_at
    → select_active actor n now (r ∷ rows) ≡ some r
unfolding select_active
active actor n now r rows h l = rw (h, lt→ltb now r.expires_at l) refl

loaded :
    (actor : AccountUuid) (n : MutationIdentity) (now : Time) (r : IdempotencyRecord)
    (rows : List IdempotencyRecord)
    → in_scope actor n r ≡ true
    → now < r.expires_at
    → (load_idempotency_record actor n now (r ∷ rows)).0 ≡ some r
unfolding load_idempotency_record
loaded actor n now r rows h l =
    ap (select_active actor n now) (kept actor n now r rows l) ∙ active actor n now r _ h l

-- What a stored row answers to a request that is in time and may see its todo.
abbrev pub answer_of :
    MutationIdentity
    → IdempotencyRecord
    → List IdempotencyRecord
    → Fallible (Option MutationResponse × List IdempotencyRecord)
answer_of n r rest =
    if n.fingerprint == r.request_fingerprint
    then ok (some (replayed_response r), rest)
    else err (conflict "idempotency_key_reused")

answered :
    (hidden : MutationIdentity → IdempotencyRecord → Bool) (n : MutationIdentity)
    (r : IdempotencyRecord) (rest : List IdempotencyRecord)
    → hidden n r ≡ false
    → answer_stored hidden n rest (some r) ≡ answer_of n r rest
unfolding answer_stored
answered hidden n r rest v = ground (
  arith,
  v,
  list_beq_iff n.fingerprint r.request_fingerprint,
  list_beq_iff r.request_fingerprint n.fingerprint,
)

-- After a response was stored for a request, a later request of the same account, operation, path
-- and key, before the stored time to live is over and unless the todo is hidden from the caller, is
-- answered from the store: with the stored status and body if its fingerprint is the stored one,
-- and otherwise with the conflict of a reused key.
pub replay_on_connection-insert_idempotency_record :
    (hidden : MutationIdentity → IdempotencyRecord → Bool) (actor : AccountUuid)
    (m n : MutationIdentity) (response : MutationResponse) (ttl : Duration) (now later : Time)
    (rows : List IdempotencyRecord) {rows' : List IdempotencyRecord}
    → insert_idempotency_record actor m response ttl now rows ≡ ok rows'
    → IsSameScope m n
    → later < now + as_secs ttl * second
    → hidden n (stored_row actor m response (now + as_secs ttl * second)) ≡ false
    → replay_on_connection hidden actor n later rows'
      ≡ answer_of n
          (stored_row actor m response (now + as_secs ttl * second))
          (load_idempotency_record actor n later rows').1
unfolding replay_on_connection
replay_on_connection-insert_idempotency_record hidden actor m n response ttl now later rows {rows'}
      h s l v =
    let r = stored_row actor m response (now + as_secs ttl * second) in
    let rest = (load_idempotency_record actor n later rows').1 in
    let got : (load_idempotency_record actor n later rows').0 ≡ some r =
      rw (inserted actor m response ttl now rows h)
        (loaded actor n later r rows (scope_of_row actor m n response _ s) l) in
    ap (answer_stored hidden n rest) got ∙ answered hidden n r rest v
