-- ===== src/Application/Todos/Patches.antt =====
-- Who may change what by a patch, and the fields that a patch reports as changed.
use silicon_commit.Base.{
  ◌≡◌, refl, ap, sym, true, false, if◌then◌else◌, [], Option, none, some, arith, ok, beq_refl,
  list_eq, nat_eq, option_eq, string_eq,
}
use silicon_commit.Domain.Validation.{DomainLimits}
use silicon_commit.Domain.Actor.{Actor}
use silicon_commit.Domain.Ids.{ActorId}
use silicon_commit.Domain.Todo.{
  Todo, Time, TodoPatch, ValidatedTodoPatch, NullablePatch, absent, null, value, is_some, is_absent,
  validate_patch, is_empty_patch,
}
use silicon_commit.Domain.Todo.Laws.{IsPatchOf, validate_patch-IsPatchOf}
use silicon_commit.Domain.Todo.Status.{status_eq}
use silicon_commit.Application.Authorization.{
  VerifiedActor, acts_for, can_patch_todo, changes_owner_fields,
}
use silicon_commit.Application.Todos.{
  from_patch, resolved_assignee, content_changes, apply_desired, or_default, patched,
}

is_some-false : {A : Type 0} (o : Option A) → is_some o ≡ false → o ≡ none
is_some-false none h = refl
is_some-false (some a) h = cc h

is_absent-true : {A : Type 0} (o : NullablePatch A) → is_absent o ≡ true → o ≡ absent
is_absent-true absent h = refl
is_absent-true null h = cc h
is_absent-true (value a) h = cc h

-- A patch without the fields of the owner.
pub record IsStatusOnly (patch : ValidatedTodoPatch) : Type 0 where
  pub title : patch.title ≡ none
  pub description : patch.description ≡ absent
  pub assigned_to : patch.assigned_to ≡ none
  pub attachments : patch.attachments ≡ none
  pub project_id : patch.project_id ≡ absent

changes_owner_fields-false :
    (patch : ValidatedTodoPatch)
    → changes_owner_fields patch ≡ false
    → (is_some patch.title ≡ false)
      × (is_absent patch.description ≡ true)
      × (is_some patch.assigned_to ≡ false)
      × (is_some patch.attachments ≡ false)
      × (is_absent patch.project_id ≡ true)
unfolding changes_owner_fields
changes_owner_fields-false patch h = ground arith

owner_only :
    (actor : VerifiedActor) (todo : Todo) (patch : ValidatedTodoPatch)
    → can_patch_todo actor todo patch ≡ true
    → acts_for actor todo.assigned_by.uuid ≡ false
    → changes_owner_fields patch ≡ false
unfolding can_patch_todo
owner_only actor todo patch h k = ground arith

pub can_patch_todo-IsStatusOnly :
    (actor : VerifiedActor) (todo : Todo) (patch : ValidatedTodoPatch)
    → can_patch_todo actor todo patch ≡ true
    → acts_for actor todo.assigned_by.uuid ≡ false
    → IsStatusOnly patch
can_patch_todo-IsStatusOnly actor todo patch h k =
    let (t, d, a, u, p) = changes_owner_fields-false patch (owner_only actor todo patch h k) in
    record {
      title = is_some-false patch.title t;
      description = is_absent-true patch.description d;
      assigned_to = is_some-false patch.assigned_to a;
      attachments = is_some-false patch.attachments u;
      project_id = is_absent-true patch.project_id p;
    }

-- A todo that differs from `old` in nothing but its state and its time of change.
pub record IsSameBut (old new : Todo) : Type 0 where
  pub title : new.title ≡ old.title
  pub description : new.description ≡ old.description
  pub assigned_to : new.assigned_to ≡ old.assigned_to
  pub assigned_by : new.assigned_by ≡ old.assigned_by
  pub attachments : new.attachments ≡ old.attachments
  pub project_id : new.project_id ≡ old.project_id
  pub created_at : new.created_at ≡ old.created_at

-- If a patch is authorized for a caller who does not act for the owner, such as an assignee, the
-- todo stored for it agrees with the current one in all but its state and its time of change.
pub from_patch-can_patch_todo :
    (actor : VerifiedActor) (todo : Todo) (patch : ValidatedTodoPatch) (directory : ActorId → Actor)
    (now : Time)
    → can_patch_todo actor todo patch ≡ true
    → acts_for actor todo.assigned_by.uuid ≡ false
    → IsSameBut todo
        (apply_desired todo (from_patch todo patch (resolved_assignee directory patch)) now)
unfolding from_patch apply_desired resolved_assignee
from_patch-can_patch_todo actor todo patch directory now h k =
    let only = can_patch_todo-IsStatusOnly actor todo patch h k in
    record {
      title = rw only.title;
      description = rw only.description;
      assigned_to = rw only.assigned_to;
      assigned_by = refl;
      attachments = rw only.attachments;
      project_id = rw only.project_id;
      created_at = refl;
    }

or_default_idem :
    {A : Type 0} (o : Option A) (d : A) → or_default o (or_default o d) ≡ or_default o d
or_default_idem none d = refl
or_default_idem (some a) d = refl

patched_idem :
    {A : Type 0} (o : NullablePatch A) (d : Option A) → patched o (patched o d) ≡ patched o d
patched_idem absent d = refl
patched_idem null d = refl
patched_idem (value a) d = refl

replaced_idem :
    {A : Type 0} (o : Option A) (d : A)
    → or_default o (if is_some o then or_default o d else d)
      ≡ (if is_some o then or_default o d else d)
replaced_idem none d = refl
replaced_idem (some a) d = refl

no_change :
    (todo : Todo)
    → content_changes todo todo.title todo.description todo.assigned_to todo.status todo.attachments
      ≡ []
unfolding content_changes
no_change todo = simp (
  beq_refl todo.title,
  beq_refl todo.description,
  beq_refl todo.assigned_to.uuid,
  beq_refl todo.status,
  beq_refl todo.attachments,
)

-- A todo to which a patch was applied reports no changed field when the same patch is applied
-- again.
pub from_patch_idem :
    (todo : Todo) (patch : ValidatedTodoPatch) (resolved : Option Actor) (now : Time)
    → (from_patch
        (apply_desired todo (from_patch todo patch resolved) now)
        patch
        resolved).changed_fields
      ≡ []
unfolding from_patch apply_desired
from_patch_idem todo patch resolved now =
    let new = apply_desired todo (from_patch todo patch resolved) now in
    rw
      (
        patched_idem patch.project_id todo.project_id,
        or_default_idem patch.title todo.title,
        patched_idem patch.description todo.description,
        or_default_idem resolved todo.assigned_to,
        or_default_idem patch.status todo.status,
        replaced_idem patch.attachments todo.attachments,
      )
      (rw (no_change new, beq_refl (patched patch.project_id todo.project_id)))

accepted_patch :
    (p : TodoPatch) (limits : DomainLimits) (v : ValidatedTodoPatch)
    → IsPatchOf limits p v
    → (is_empty_patch p ≡ false)
      × (is_some v.title ≡ is_some p.title)
      × (is_absent v.description ≡ is_absent p.description)
      × (is_some v.assigned_to ≡ is_some p.assigned_to)
      × (is_some v.status ≡ is_some p.status)
      × (is_some v.attachments ≡ is_some p.attachments)
      × (is_absent v.project_id ≡ is_absent p.project_id)
accepted_patch p limits v k = (
  k.not_empty,
  k.title_given,
  ap is_absent (sym k.description_kept),
  ap is_some (sym k.assignee_kept),
  ap is_some (sym k.status_kept),
  ap is_some (sym k.attachments_kept),
  ap is_absent (sym k.project_kept),
)

-- A caller who acts neither for the owner nor for the assignee is refused every patch that passes
-- validation.
pub can_patch_todo-outsider :
    (actor : VerifiedActor) (todo : Todo) (p : TodoPatch) (limits : DomainLimits)
    {v : ValidatedTodoPatch}
    → validate_patch p limits ≡ ok v
    → acts_for actor todo.assigned_by.uuid ≡ false
    → acts_for actor todo.assigned_to.uuid ≡ false
    → can_patch_todo actor todo v ≡ false
unfolding can_patch_todo changes_owner_fields is_empty_patch
can_patch_todo-outsider actor todo p limits {v} h k l =
    let facts = accepted_patch p limits v (validate_patch-IsPatchOf p limits h) in
    ground (arith, facts)
