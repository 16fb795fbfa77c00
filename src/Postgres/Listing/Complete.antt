-- ===== src/Postgres/Listing/Complete.antt =====
-- Following the cursors of `list_todos` lists each selected todo once.
use silicon_commit.Base.{
  ℕ, zero, suc, ◌≤◌, ◌≡◌, refl, ap, ◌∙◌, inl, inr, Bool, true, List, [], ◌∷◌, Option, none, some,
  length, All, Bool-cases,
}
use silicon_commit.Domain.Ids.{AccountUuid}
use silicon_commit.Domain.Pagination.{PageCursor, CreatedAtRange}
use silicon_commit.Domain.Pagination.Keyset.{
  filter, filter-and, from_cursor, page, follow, then_follow, follow_all, IsDescending, below,
}
use silicon_commit.Postgres.Listing.{
  TodoQuery, TodoRow, Database, selected, list_todos, cursor_of_row,
}

-- The query for the next page
abbrev pub at_cursor : TodoQuery → Option PageCursor → TodoQuery
at_cursor q cursor = record {
  view = q.view;
  status = q.status;
  assigned_to = q.assigned_to;
  assigned_by = q.assigned_by;
  created_from = q.created_from;
  created_to = q.created_to;
  cursor = cursor;
  limit = q.limit;
  project_id = q.project_id;
}

module _ (db : Database) (rows : List TodoRow) (me : AccountUuid) (q : TodoQuery)
    (range : CreatedAtRange) where
  -- The items that a client gets from at most `n` requests, each with the cursor of the page before.
  abbrev pub follow_todos : ℕ → Option PageCursor → List TodoRow
  follow_todos zero cursor = []
  follow_todos (suc n) cursor =
      then_follow (λ c. follow_todos n (some c)) (list_todos db rows me (at_cursor q cursor) range)

  one_page :
      (cursor : Option PageCursor)
      → list_todos db rows me (at_cursor q cursor) range
        ≡ page cursor_of_row q.limit (filter (selected db me q range) rows) cursor
  unfolding list_todos selected
  one_page cursor =
      rw (filter-and (selected db me q range) (from_cursor cursor_of_row cursor) rows) refl

  same_pages :
      (n : ℕ) (cursor : Option PageCursor)
      → follow_todos n cursor
        ≡ follow cursor_of_row n q.limit (filter (selected db me q range) rows) cursor
  same_pages zero cursor = refl
  same_pages (suc n) cursor =
      ap (then_follow (λ c. follow_todos n (some c))) (one_page cursor)
      ∙ ap
          (λ next.
            then_follow next
              (page cursor_of_row q.limit (filter (selected db me q range) rows) cursor))
          (λ i. λ c. same_pages n (some c) i)

filter-All :
    (P : TodoRow → Type 0) (p : TodoRow → Bool) (xs : List TodoRow) → All P xs → All P (filter p xs)
filter-All P p [] h = tt
filter-All P p (x ∷ xs) (a, h) = elim (Bool-cases (p x)) [
  | inl is_p ↦ rw is_p (a, filter-All P p xs h)
  | inr is_p ↦ rw is_p (filter-All P p xs h)
]

filter-IsDescending :
    (p : TodoRow → Bool) (xs : List TodoRow)
    → IsDescending cursor_of_row xs
    → IsDescending cursor_of_row (filter p xs)
filter-IsDescending p [] h = tt
filter-IsDescending p (x ∷ xs) (a, h) = elim (Bool-cases (p x)) [
  | inl is_p ↦ rw is_p (
    filter-All (λ y. below (cursor_of_row y) (cursor_of_row x) ≡ true) p xs a,
    filter-IsDescending p xs h,
  )
  | inr is_p ↦ rw is_p (filter-IsDescending p xs h)
]

-- A client that follows the cursors of `list_todos` from the first page on gets exactly the todos
-- that the query selects, each once and in the order of the table, if the table is in strictly
-- descending order of creation time and id and does not change meanwhile, and the page size is at
-- least one; one request more than there are selected todos is enough.
pub list_todos_complete :
    (db : Database) (rows : List TodoRow) (me : AccountUuid) (q : TodoQuery)
    (range : CreatedAtRange)
    → IsDescending cursor_of_row rows
    → 1 ≤ q.limit
    → follow_todos db rows me q range (suc (length (filter (selected db me q range) rows))) none
      ≡ filter (selected db me q range) rows
list_todos_complete db rows me q range d h =
    let found = filter (selected db me q range) rows in
    same_pages db rows me q range (suc (length found)) none
    ∙ follow_all cursor_of_row q.limit found h (filter-IsDescending (selected db me q range) rows d)
