-- ===== src/Postgres/Listing.antt =====
-- src/infrastructure/postgres/todos.rs: the list of todos with its filters and its keyset page. The
-- table is a list of rows in the order of its index, `created_at DESC, id DESC`.
pub mod Complete
use silicon_commit.Base.{
  ℕ, ◌+◌, Bool, true, false, not, ◌&&◌, ◌||◌, List, [], Option, none, some, length, take,
  if◌then◌else◌, ltb, leb, ◌==◌, ◌!=◌, list_eq, nat_eq, option_eq,
}
use silicon_commit.Text.{Text, to_ascii_lowercase}
use silicon_commit.Domain.Ids.{AccountUuid, ActorId, TodoId, ProjectId}
use silicon_commit.Domain.Actor.{Actor, prefixed_kind}
use silicon_commit.Domain.Todo.{Todo, Time, is_some}
use silicon_commit.Domain.Todo.Status.{TodoStatus, status_eq}
use silicon_commit.Domain.Pagination.{PageLimit, PageCursor, Page, CreatedAtRange, last, cursor_of}
use silicon_commit.Domain.Pagination.Keyset.{filter, from_cursor}

pub data TodoView : Type 0 where
  assigned_to_me delegated_by_me all_visible : TodoView

pub record TodoQuery : Type 0 where
  pub view : TodoView
  pub status : Option TodoStatus
  pub assigned_to : Option ActorId
  pub assigned_by : Option ActorId
  pub created_from : Option Time
  pub created_to : Option Time
  pub cursor : Option PageCursor
  pub limit : PageLimit
  pub project_id : Option ProjectId

-- A row of `commit.todos`
pub record TodoRow : Type 0 where
  pub todo : Todo
  pub is_deleted : Bool

-- A filter that is absent admits every row
abbrev pub unless_given : {A : Type 0} → Option A → (A → Bool) → Bool
unless_given none test = true
unless_given (some a) test = test a

-- What the database computes: `commit.todo_access`, and `lower` on a text
pub record Database : Type 0 where
  pub todo_access : TodoId → AccountUuid → Bool
  pub lower : Text → Text

-- `push_account_filter`
unfoldable pub account_matches : Database → ActorId → Actor → Bool
account_matches db id account =
    if is_some (prefixed_kind id)
    then db.lower account.id == to_ascii_lowercase id
    else account.uuid == id

abbrev in_view : TodoView → AccountUuid → Todo → Bool
in_view assigned_to_me me t = t.assigned_to.uuid == me
in_view delegated_by_me me t = t.assigned_by.uuid == me && t.assigned_to.uuid != t.assigned_by.uuid
in_view all_visible me t = true

-- The `WHERE` of `list_todos`, without the cursor
unfoldable pub selected : Database → AccountUuid → TodoQuery → CreatedAtRange → TodoRow → Bool
unfolding account_matches
selected db me q range row =
    let t = row.todo in
    not row.is_deleted
    && db.todo_access t.id me
    && unless_given q.project_id (λ id. t.project_id == some id)
    && in_view q.view me t
    && unless_given q.status (λ s. t.status == s)
    && unless_given q.assigned_to (λ id. account_matches db id t.assigned_to)
    && unless_given q.assigned_by (λ id. account_matches db id t.assigned_by)
    && unless_given range.from (λ at. leb at t.created_at)
    && unless_given range.to (λ at. leb t.created_at at)

-- `PageCursor::new(todo.created_at, todo.id.into_uuid())`
abbrev pub cursor_of_row : TodoRow → PageCursor
cursor_of_row row = record { created_at = row.todo.created_at; id = row.todo.id }

unfoldable pub list_todos :
    Database → List TodoRow → AccountUuid → TodoQuery → CreatedAtRange → Page TodoRow
list_todos db rows me query range =
    let records = take (query.limit + 1) (
      filter (λ row. selected db me query range row && from_cursor cursor_of_row query.cursor row)
        rows) in
    let has_more = ltb query.limit (length records) in
    let items = take query.limit records in
    record {
      items = items;
      next_cursor = if has_more then cursor_of cursor_of_row (last items) else none;
    }
