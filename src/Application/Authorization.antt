-- ===== src/Application/Authorization.antt =====
-- src/application/authorization.rs: what a caller who sees a todo may change; the verified caller is
-- `VerifiedActor` of src/application/ports.rs. The set of managed Silicons is a list.
use silicon_commit.Base.{
  Bool, true, false, not, ◌&&◌, ◌||◌, List, Option, none, some, if◌then◌else◌, ◌==◌, contains,
  list_eq, nat_eq, ℤ,
}
use silicon_commit.Text.{Text}
use silicon_commit.Domain.Ids.{AccountUuid}
use silicon_commit.Domain.Actor.{Actor}
use silicon_commit.Domain.Todo.{Todo, ValidatedTodoPatch, is_absent, is_some}

pub data Grant : Type 0 where
  bearer : (issued_at : Option ℤ) (family : Option Text) → Grant
  proof : (issuing_app proof_id : Text) (scopes : List Text) → Grant

pub record VerifiedActor : Type 0 where
  pub actor : Actor
  pub custodian : Option AccountUuid
  pub managed_silicons : List AccountUuid
  pub grant : Grant

-- `VerifiedActor::acts_for`
unfoldable pub acts_for : VerifiedActor → AccountUuid → Bool
acts_for actor subject = actor.actor.uuid == subject || contains actor.managed_silicons subject

-- `VerifiedActor::via_app`
unfoldable pub via_app : VerifiedActor → Option Text
via_app actor = elim actor.grant [
  | bearer issued_at family ↦ none
  | proof issuing_app proof_id scopes ↦ some issuing_app
]

-- `changes_owner_fields` of `can_patch_todo`
unfoldable pub changes_owner_fields : ValidatedTodoPatch → Bool
changes_owner_fields patch =
    is_some patch.title
    || not (is_absent patch.description)
    || is_some patch.assigned_to
    || is_some patch.attachments
    || not (is_absent patch.project_id)

unfoldable pub can_patch_todo : VerifiedActor → Todo → ValidatedTodoPatch → Bool
unfolding changes_owner_fields
can_patch_todo actor todo patch =
    let for_owner = acts_for actor todo.assigned_by.uuid in
    let for_assignee = acts_for actor todo.assigned_to.uuid in
    if changes_owner_fields patch && not for_owner
    then false
    else if is_some patch.status && not (for_owner || for_assignee)
    then false
    else true

unfoldable pub can_delete_todo : VerifiedActor → Todo → Bool
can_delete_todo actor todo = acts_for actor todo.assigned_by.uuid

unfoldable pub can_add_todo_note : VerifiedActor → Todo → Bool
can_add_todo_note actor todo =
    acts_for actor todo.assigned_by.uuid || acts_for actor todo.assigned_to.uuid
