-- ===== src/Examples/Replay.antt =====
-- The replay of a stored response (src/application/todos.rs, src/infrastructure/postgres/todos.rs).
use silicon_commit.Base.{◌*◌, ◌≡◌, refl, Bool, false, List, [], ◌∷◌, ok, arith}
use silicon_commit.Text.{chars}
use silicon_commit.Config.{second}
use silicon_commit.Postgres.Idempotency.{
  MutationIdentity, MutationResponse, IdempotencyRecord, insert_idempotency_record,
  load_idempotency_record, replay_on_connection,
}
use silicon_commit.Postgres.Idempotency.Replay.{
  answer_of, stored_row, replay_on_connection-insert_idempotency_record,
}

abbrev first : MutationIdentity
first = record {
  operation = "createTodo";
  resource_path = chars "/todos";
  key = chars "request-1";
  fingerprint = 1 ∷ [];
}

-- The same key with another document.
abbrev second_use : MutationIdentity
second_use = record {
  operation = "createTodo";
  resource_path = chars "/todos";
  key = chars "request-1";
  fingerprint = 2 ∷ [];
}

abbrev response : MutationResponse
response = record { status = 201; body = chars "{}"; replayed = false }

abbrev visible : MutationIdentity → IdempotencyRecord → Bool
visible m r = false

abbrev rows : List IdempotencyRecord
rows = stored_row (chars "own") first response (86400 * second) ∷ []

first-stored :
    insert_idempotency_record (chars "own") first response (86400 * second) 0 [] ≡ ok rows
unfolding insert_idempotency_record
first-stored = refl

replay_on_connection-insert_idempotency_record_example :
    replay_on_connection visible (chars "own") second_use second rows
    ≡ answer_of second_use
        (stored_row (chars "own") first response (86400 * second))
        (load_idempotency_record (chars "own") second_use second rows).1
replay_on_connection-insert_idempotency_record_example =
    replay_on_connection-insert_idempotency_record visible (chars "own") first second_use response
      (86400 * second) 0 second [] first-stored
      (record { operation = refl; resource_path = refl; key = refl }) (omega arith) refl
