-- ===== src/Postgres/Notifications.antt =====
-- src/infrastructure/postgres/notifications.rs: rows of settings and subscriptions, the statements
-- that write them, and the effective routing of an event.
pub mod RoundTrip
pub mod Routing
use silicon_commit.Base.{
  ℕ, suc, ◌+◌, Bool, true, false, List, [], ◌∷◌, Option, none, some, String, if◌then◌else◌,
  is_empty, Result, ok, err, map_err, traverse, ◌>>=◌, ◌>>◌, fail_if, ℤ, pos, negsuc, is_negative,
  ◌==◌, int_eq, nat_beq, max,
}
use silicon_commit.Text.{Text}
use silicon_commit.Domain.Ids.{ActorId}
use silicon_commit.Domain.Url.{UrlParser}
use silicon_commit.Domain.Todo.{Time}
use silicon_commit.Domain.Todo.Status.{TodoStatus}
use silicon_commit.Domain.Notification.Rule.{
  NotificationScope, NotificationRule, rule_from_persisted,
}
use silicon_commit.Domain.Notification.Version.{NotificationVersion, notification_version}
use silicon_commit.Domain.Notification.Webhook.{WebhookUrl, webhook_from_persisted}
use silicon_commit.Domain.Notification.Settings.{
  NotificationSettings, ValidatedNotificationSettingsUpdate,
}
use silicon_commit.Error.{AppError, internal, Fallible}

-- `corrupt_persisted_data`
abbrev pub corrupt : AppError
corrupt = internal "invalid persisted notification data"

pub record SettingsRow : Type 0 where
  pub webhook_url : Option Text
  pub todo_list_scope : Option NotificationScope
  pub todo_list_statuses : List TodoStatus
  pub version : ℤ
  pub updated_at : Time

unfoldable pub rule_columns : Option NotificationRule → Option NotificationScope × List TodoStatus
rule_columns none = (none, [])
rule_columns (some rule) = (some rule.scope, rule.statuses)

unfoldable pub persisted_rule :
    Option NotificationScope → List TodoStatus → Fallible (Option NotificationRule)
persisted_rule (some scope) statuses =
    map_err (λ _. corrupt) (rule_from_persisted scope statuses) >>= λ rule. ok (some rule)
persisted_rule none statuses = if is_empty statuses then ok none else err corrupt

-- `value < 1`
abbrev below_one : ℤ → Bool
below_one (pos n) = nat_beq n 0
below_one (negsuc n) = true

unfoldable pub persisted_version : ℤ → Fallible NotificationVersion
unfolding notification_version
persisted_version value = do
  fail_if (below_one value) corrupt
  map_err (λ _. corrupt) (notification_version value)

-- `SettingsRow::into_domain`
unfoldable pub into_settings : UrlParser → SettingsRow → ActorId → Fallible NotificationSettings
into_settings p row actor_id = do
  destination ←
      map_err (λ _. corrupt)
        (traverse (λ value. webhook_from_persisted p value actor_id) row.webhook_url)
  subscription ← persisted_rule row.todo_list_scope row.todo_list_statuses
  version ← persisted_version row.version
  ok (record {
    webhook_url = destination;
    todo_list_subscription = subscription;
    version = version;
    updated_at = some row.updated_at;
  })

-- The row that `insert_settings` creates; the column `version` starts at one.
unfoldable pub insert_settings : ValidatedNotificationSettingsUpdate → Time → SettingsRow
unfolding rule_columns
insert_settings desired now =
    let (scope, statuses) = rule_columns desired.todo_list_subscription in
    record {
      webhook_url = desired.webhook_url;
      todo_list_scope = scope;
      todo_list_statuses = statuses;
      version = pos 1;
      updated_at = now;
    }

-- `version + 1`, by the trigger that touches an updated row
unfoldable pub next_version : ℤ → ℤ
next_version (pos n) = pos (n + 1)
next_version (negsuc (suc n)) = negsuc n
next_version (negsuc n) = pos 0

-- `update_settings`: no row if the version is another one.
unfoldable pub update_settings :
    SettingsRow
    → NotificationVersion
    → ValidatedNotificationSettingsUpdate
    → Time
    → Option SettingsRow
unfolding rule_columns next_version
update_settings row current_version desired now =
    let (scope, statuses) = rule_columns desired.todo_list_subscription in
    if row.version == current_version
    then some (record {
      webhook_url = desired.webhook_url;
      todo_list_scope = scope;
      todo_list_statuses = statuses;
      version = next_version row.version;
      updated_at = max now row.updated_at;
    })
    else none
