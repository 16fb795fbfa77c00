-- ===== src/Lib.antt =====
-- The commit service: todos, projects, their lists and patches, notification settings and webhooks.
--
-- The service keeps todos in PostgreSQL. A caller (`VerifiedActor`) creates, lists and patches todos;
-- an update of a delegated todo queues an outbox event for the Silicon that delegated it, by the
-- routing that its notification settings determine; a worker delivers the events to webhooks. A
-- project has members, a diary with versions, tasks and entries; assigning a task makes a todo for it
-- and shares the project with the assignee, and a completion entry ends the project. This library
-- models the decisions of those parts and proves what they promise.
--
-- Parts, files and sources:
--   Base, Text          shared helpers: Boolean tests, lists, `Result`, `Eq`, integers, `str`
--   Domain/Validation   src/domain/validation.rs: limits, bounded text, checks of collections
--   Domain/Ids, Actor   src/domain/ids.rs, src/domain/actor.rs: identifiers and accounts
--   Domain/Url          the `url` crate as the interface `UrlParser` with the laws `UrlLaws`
--   Domain/Attachment   src/domain/attachment.rs: `AttachmentUrl`
--   Domain/Todo         src/domain/todo.rs: creation, patch, todo; Todo/Status the states
--   Domain/Notification src/domain/notification.rs: Rule, Address (literal IPs), Webhook, Version,
--                       Settings
--   Domain/Pagination   src/domain/pagination.rs: page sizes, cursors, pages; Keyset the theory of
--                       keyset pages
--   Domain/Project      src/domain/project.rs: details, creation and patch; Slug, Uid, Status, Diary
--                       and Tasks the values and the other commands
--   Error               src/error.rs: `AppError` with status and code
--   Config              src/config.rs: `WorkerSettings` and its validation; Worker/Outbox/Policy what
--                       the outbox relies on
--   Postgres/Notifications src/infrastructure/postgres/notifications.rs: rows of settings and the
--                       statements on them; Routing is `EffectiveRoutingRow::into_snapshot`
--   Postgres/Listing    src/infrastructure/postgres/todos.rs: `list_todos`
--   Postgres/Idempotency stored responses of src/infrastructure/postgres/todos.rs and their replay of
--                       src/application/todos.rs
--   Postgres/Projects   src/infrastructure/postgres/projects.rs: the rows of one project, access and
--                       locks; Changes the statements on its data and members, Journal those on its
--                       diary and entries, Tasks those on tasks and their todos, Rows `into_domain`
--   Application/Authorization src/application/authorization.rs and `VerifiedActor` of ports.rs
--   Application/Todos   src/application/todos.rs: `DesiredTodo::from_patch`, authorization, events
--   Application/Notifications src/application/notifications.rs: `replace_settings`
--   Application/Projects src/application/projects.rs and projects/collaboration.rs: access, entries
--                       and the diary; Membership the members and `update_project`, Creation the new
--                       project, Seeds its initial tasks, Tasks the tasks, Tasks/Requests the requests
--                       for claims with their stored responses, Replays the replay of a stored
--                       response; Runs the use cases as steps, the others proofs
--   Application/Idempotency src/application/idempotency.rs: keys and the bytes of a fingerprint
--   Worker/Outbox       src/worker/outbox.rs: each statement on a row of `commit.outbox_events`
--   Worker/Retention    src/worker/retention.rs: one maintenance cycle
--   Api/IfMatch         src/api/extract.rs: `If-Match`, and the entity tags of src/api/projects.rs and
--                       src/api/notifications.rs
--   Examples            runs on concrete inputs
--
-- Representation. A string is the list of its code points (`Text`); fixed strings of the program
-- are native strings. Numbers are natural; an `i64` is an integer, and a bound of a machine type is
-- written out where the code converts. Times and durations are nanoseconds. A set of accounts is a
-- list. Errors are values of `Result`; an error carries its public code, not its message. A
-- transaction is a function from the rows that it locks to a result and the new rows, and an error
-- leaves them as they were. The outbox is a step relation on one row (`Step`, `Run`), since every
-- statement of the worker changes each row by itself; which rows a batch picks is left open. The
-- trigger on `updated_at` is part of each statement. The use cases on a project are functions on
-- its rows under the lock of the project (`ProjectRows`, `Work` with its tasks and their todos),
-- and a step relation over them (`ProjectStep`, `ProjectRun`), since the lock puts the transactions
-- on one project in an order; one that fails changes nothing. A step that claims a task is a request
-- without a stored response; Tasks/Requests also answers those that have one. Three loops run on fuel, with proofs
-- that it is enough: the client that follows cursors, and the two loops over initial tasks with
-- 1002 turns, as each stops at the 1001st task. Decimal numbers are written with at most 39 digits,
-- enough for an `i128`, a `u64` and an `i64`. The loop of a maintenance cycle counts the passes
-- left of its 128, as the code does.
--
-- Parameters. The URL parser, the codecs of cursors, `commit.todo_access`, the database's `lower`
-- and its routines of maintenance are arguments; so are the account directory (`Directory`), what
-- the database knows of circles and custody (`Circles`), `slugify` of the `slug` crate, the parser
-- of uuids, fresh ids and the clock; what is asked of them is stated as `UrlLaws`, `CodecLaws` and
-- `IsSlugified`.
--
-- Not modelled: HTTP routing, other extraction and responses (src/api), authentication and the
-- clients of other services (src/infrastructure/clients), notes, the deletion of project tasks,
-- snapshots of projects, contracts, the command line and the client library, SQL migrations except
-- the constraints and triggers named above, and decoding by serde.
pub mod Base
pub mod Text
pub mod Domain
pub mod Error
pub mod Config
pub mod Postgres
pub mod Application
pub mod Worker
pub mod Api
pub mod Examples
