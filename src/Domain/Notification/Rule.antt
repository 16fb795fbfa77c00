-- ===== src/Domain/Notification/Rule.antt =====
-- Notification rules: validation, normal form, and the updates that a rule selects.
pub mod Sorting
pub mod Laws
use silicon_commit.Base.{
  Bool, true, false, not, List, [], ◌∷◌, Option, none, some, String, if◌then◌else◌, is_empty,
  contains, Result, ok, err, leb, fail_if, ◌>>=◌, ◌>>◌,
}
use silicon_commit.Domain.Validation.{
  Validated, validation_error, too_few_items, invalid, ensure_unique,
}
use silicon_commit.Domain.Todo.Status.{TodoStatus, status_eq, status_sort_key}

pub data NotificationScope : Type 0 where
  any_update status_updates specific_statuses : NotificationScope

pub data NotificationSubscriptionLevel : Type 0 where
  list_level todo_level : NotificationSubscriptionLevel

-- `NotificationScope::as_str`
unfoldable pub scope_as_str : NotificationScope → String
scope_as_str any_update = "any_update"
scope_as_str status_updates = "status_updates"
scope_as_str specific_statuses = "specific_statuses"

pub record NotificationRuleInput : Type 0 where
  pub scope : NotificationScope
  pub statuses : List TodoStatus

pub record NotificationRule : Type 0 where
  pub scope : NotificationScope
  pub statuses : List TodoStatus

unfoldable pub insert_status : TodoStatus → List TodoStatus → List TodoStatus
insert_status s [] = s ∷ []
insert_status s (t ∷ ts) =
    if leb (status_sort_key s) (status_sort_key t) then s ∷ t ∷ ts else t ∷ insert_status s ts

-- `statuses.sort_unstable_by_key(status_sort_key)`
unfoldable pub sort_statuses : List TodoStatus → List TodoStatus
unfolding insert_status
sort_statuses [] = []
sort_statuses (s ∷ ss) = insert_status s (sort_statuses ss)

-- The `match scope` at the head of `NotificationRule::new`
unfoldable pub check_scope : String → NotificationScope → List TodoStatus → Validated (Unit {0})
check_scope field specific_statuses statuses =
    fail_if (is_empty statuses) (validation_error field (too_few_items 1 0))
check_scope field _ statuses =
    fail_if (not (is_empty statuses))
      (validation_error field (invalid "statuses are only valid for the specific_statuses scope"))

-- `NotificationRule::new`
unfoldable pub new_rule : String → NotificationScope → List TodoStatus → Validated NotificationRule
unfolding check_scope
new_rule field scope statuses = do
  check_scope field scope statuses
  ensure_unique field statuses
  ok (record { scope = scope; statuses = sort_statuses statuses })

-- `NotificationRule::from_persisted`
unfoldable pub rule_from_persisted :
    NotificationScope → List TodoStatus → Validated NotificationRule
unfolding new_rule
rule_from_persisted = new_rule "subscription"

-- `NotificationRuleInput::validate`
unfoldable pub validate_rule : String → NotificationRuleInput → Validated NotificationRule
unfolding new_rule
validate_rule field input = new_rule field input.scope input.statuses

abbrev selects_status : NotificationScope → List TodoStatus → Option TodoStatus → Bool
selects_status any_update statuses resulting = true
selects_status status_updates statuses none = false
selects_status status_updates statuses (some s) = true
selects_status specific_statuses statuses none = false
selects_status specific_statuses statuses (some s) = contains statuses s

-- `NotificationRule::matches_update`
unfoldable pub matches_update : NotificationRule → Option TodoStatus → Bool
matches_update rule resulting_status = selects_status rule.scope rule.statuses resulting_status
