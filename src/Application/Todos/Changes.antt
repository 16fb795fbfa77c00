-- ===== src/Application/Todos/Changes.antt =====
-- The fields that a patch reports as changed, its activity and its event.
use silicon_commit.Base.{
  ◌≡◌, refl, ◌∙◌, ◌≢◌, ◌↔◌, Bool, true, false, ◌&&◌, ◌||◌, List, [], ◌∷◌, ◌++◌, Option, String,
  arith, contains, Eq, ◌==◌, ◌!=◌, list_eq, nat_eq, option_eq, string_eq,
}
use silicon_commit.Domain.Actor.{Actor}
use silicon_commit.Domain.Todo.{Todo, ValidatedTodoPatch}
use silicon_commit.Domain.Todo.Status.{status_eq}
use silicon_commit.Application.Todos.{
  DesiredTodo, from_patch, content_changes, push_if, TodoActivityKind, status_changed, reassigned,
  activity_kind_of, update_event_type,
}

contains-append :
    (xs ys : List String) (s : String) → contains (xs ++ ys) s ≡ (contains xs s || contains ys s)
contains-append [] ys s = refl
contains-append (x ∷ xs) ys s = ground (arith, contains-append xs ys s)

contains-push_if :
    (b : Bool) (n : String) (xs : List String) (s : String)
    → contains (push_if b n xs) s ≡ (contains xs s || (b && n == s))
contains-push_if true n xs s = contains-append xs (n ∷ []) s ∙ ground arith
contains-push_if false n xs s = contains-append xs [] s ∙ ground arith

different : {A : Type 0} ⦃e : Eq A⦄ (a b : A) → (a != b) ≡ true ↔ (a ≢ b)
different ⦃e⦄ a b = ground (arith, e.same_iff a b)

-- The names of the fields in which a desired todo differs from the current one.
pub record IsChangeReport (todo : Todo) (d : DesiredTodo) : Type 0 where
  pub title : (contains d.changed_fields "title" ≡ true) ↔ (d.title ≢ todo.title)
  pub description :
      (contains d.changed_fields "description" ≡ true) ↔ (d.description ≢ todo.description)
  pub assigned_to :
      (contains d.changed_fields "assigned_to" ≡ true)
      ↔ (d.assigned_to.uuid ≢ todo.assigned_to.uuid)
  pub status : (contains d.changed_fields "status" ≡ true) ↔ (d.status ≢ todo.status)
  pub attachments :
      (contains d.changed_fields "attachments" ≡ true) ↔ (d.attachments ≢ todo.attachments)
  pub project_id :
      (contains d.changed_fields "project_id" ≡ true) ↔ (d.project_id ≢ todo.project_id)

abbrev six : Bool → Bool → Bool → Bool → Bool → Bool → List String
six t d a s u p = push_if p "project_id" (
    push_if u "attachments" (
      push_if s "status"
        (push_if a "assigned_to" (push_if d "description" (push_if t "title" [])))))

six-contains :
    (t d a s u p : Bool) (n : String)
    → contains (six t d a s u p) n ≡ (
        (((((t && "title" == n) || (d && "description" == n)) || (a && "assigned_to" == n))
            || (s && "status" == n))
          || (u && "attachments" == n))
        || (p && "project_id" == n))
six-contains t d a s u p n =
    let f1 = push_if t "title" [] in
    let f2 = push_if d "description" f1 in
    let f3 = push_if a "assigned_to" f2 in
    let f4 = push_if s "status" f3 in
    let f5 = push_if u "attachments" f4 in
    rw (
      contains-push_if p "project_id" f5 n,
      contains-push_if u "attachments" f4 n,
      contains-push_if s "status" f3 n,
      contains-push_if a "assigned_to" f2 n,
      contains-push_if d "description" f1 n,
      contains-push_if t "title" [] n,
    )

title_of : (t d a s u p : Bool) → contains (six t d a s u p) "title" ≡ t
title_of t d a s u p = six-contains t d a s u p "title" ∙ ground arith

description_of : (t d a s u p : Bool) → contains (six t d a s u p) "description" ≡ d
description_of t d a s u p = six-contains t d a s u p "description" ∙ ground arith

assigned_to_of : (t d a s u p : Bool) → contains (six t d a s u p) "assigned_to" ≡ a
assigned_to_of t d a s u p = six-contains t d a s u p "assigned_to" ∙ ground arith

status_of : (t d a s u p : Bool) → contains (six t d a s u p) "status" ≡ s
status_of t d a s u p = six-contains t d a s u p "status" ∙ ground arith

attachments_of : (t d a s u p : Bool) → contains (six t d a s u p) "attachments" ≡ u
attachments_of t d a s u p = six-contains t d a s u p "attachments" ∙ ground arith

project_id_of : (t d a s u p : Bool) → contains (six t d a s u p) "project_id" ≡ p
project_id_of t d a s u p = six-contains t d a s u p "project_id" ∙ ground arith

-- A test that equals a difference decides it.
decides : {A : Type 0} ⦃e : Eq A⦄ {b : Bool} (x y : A) → b ≡ (x != y) → (b ≡ true) ↔ (x ≢ y)
decides x y h = rw h (different x y)

module _ (todo : Todo) (patch : ValidatedTodoPatch) (resolved : Option Actor) where
  -- Each of the six fields is reported as changed by a patch exactly when the desired todo differs
  -- from the current one in it; assignees are compared by uuid.
  pub from_patch-IsChangeReport : IsChangeReport todo (from_patch todo patch resolved)
  unfolding from_patch content_changes
  from_patch-IsChangeReport =
      let d = from_patch todo patch resolved in
      let t = d.title != todo.title in
      let e = d.description != todo.description in
      let a = d.assigned_to.uuid != todo.assigned_to.uuid in
      let s = d.status != todo.status in
      let u = d.attachments != todo.attachments in
      let p = d.project_id != todo.project_id in
      record {
        title = decides d.title todo.title (title_of t e a s u p);
        description = decides d.description todo.description (description_of t e a s u p);
        assigned_to = decides d.assigned_to.uuid todo.assigned_to.uuid (assigned_to_of t e a s u p);
        status = decides d.status todo.status (status_of t e a s u p);
        attachments = decides d.attachments todo.attachments (attachments_of t e a s u p);
        project_id = decides d.project_id todo.project_id (project_id_of t e a s u p);
      }

-- The event type that belongs to an activity.
abbrev pub event_of_activity : TodoActivityKind → String
event_of_activity reassigned = "todo.reassigned"
event_of_activity status_changed = "todo.status_changed"
event_of_activity _ = "todo.updated"

event_of_kind :
    (fields : List String) (p : Bool)
    → update_event_type (push_if p "project_id" fields)
      ≡ event_of_activity (activity_kind_of fields)
unfolding update_event_type activity_kind_of
event_of_kind fields p =
    rw
      (
        contains-push_if p "project_id" fields "assigned_to",
        contains-push_if p "project_id" fields "status",
      )
      (ground arith)

-- The webhook event of an update and its recorded activity are of the same kind, although the event
-- is chosen from all changed fields and the activity before the project is compared.
pub update_event_type-from_patch :
    (todo : Todo) (patch : ValidatedTodoPatch) (resolved : Option Actor)
    → update_event_type (from_patch todo patch resolved).changed_fields
      ≡ event_of_activity (from_patch todo patch resolved).activity_kind
unfolding from_patch
update_event_type-from_patch todo patch resolved = event_of_kind _ _
