-- ===== src/Examples/Settings.antt =====
-- Notification settings on concrete requests (src/application/notifications.rs,
-- src/infrastructure/postgres/notifications.rs).
use silicon_commit.Base.{
  true, ◌≡◌, refl, false, [], ◌∷◌, none, some, ok, err, pos, list_beq, option_beq, int_beq, list_eq,
  nat_eq, option_eq, int_eq,
}
use silicon_commit.Text.{
  chars, trim, trim_start, trim_end, is_whitespace, is_control, byte_len, utf8_width,
  eq_ignore_ascii_case, to_ascii_lowercase, ascii_lower,
}
use silicon_commit.Domain.Url.{Host}
use silicon_commit.Domain.Actor.{Actor, silicon, public_ref}
use silicon_commit.Domain.Todo.Status.{completed, blocked, status_beq, status_sort_key}
use silicon_commit.Domain.Validation.{ensure_unique, observe}
use silicon_commit.Domain.Notification.Rule.{
  specific_statuses, any_update, todo_level, validate_rule, new_rule, rule_from_persisted,
  check_scope, sort_statuses, insert_status, matches_update,
}
use silicon_commit.Domain.Notification.Version.{notification_version}
use silicon_commit.Domain.Notification.Webhook.{
  webhook_url, webhook_from_persisted, validate_webhook_url, check_raw, check_parts, check_host,
  trim_end_dots, ends_with,
}
use silicon_commit.Domain.Notification.Webhook.Laws.{
  IsPublicHost, webhook_from_persisted-webhook_url,
}
use silicon_commit.Domain.Notification.Settings.{
  NotificationSettings, NotificationSettingsUpdate, ValidatedNotificationSettingsUpdate,
  validate_settings, configuration_eq,
}
use silicon_commit.Postgres.Notifications.{
  into_settings, persisted_rule, persisted_version, insert_settings, rule_columns,
}
use silicon_commit.Postgres.Notifications.Routing.{
  EffectiveRoutingRow, WebhookRoutingSnapshot, into_snapshot, snapshot_to, effective_rule, route_by,
  routing_snapshot,
}
use silicon_commit.Postgres.Notifications.Routing.Laws.{into_snapshot-Routing, Routing}
use silicon_commit.Application.Notifications.{
  SettingsState, replace_settings, replace_absent, validate_request_id, version_conflict,
}
use silicon_commit.Application.Notifications.Outcomes.{IsSettled, IsStep}
use silicon_commit.Application.Notifications.Requests.{
  replace_settings-IsSettled, replace_settings-retry, replace_settings-conflict,
}
use silicon_commit.Examples.Hook.{hook, hook_parser, hook_laws}

abbrev scout : Actor
scout = record { uuid = chars "sct"; actor_type = silicon; id = chars "si:scout" }

hook-accepted : webhook_url hook_parser hook (chars "si:scout") ≡ ok hook
unfolding webhook_url validate_webhook_url check_raw check_parts check_host trim_end_dots ends_with
    byte_len utf8_width trim trim_start trim_end is_whitespace is_control list_beq
    eq_ignore_ascii_case to_ascii_lowercase ascii_lower
hook-accepted = refl

webhook_from_persisted-webhook_url_example :
    (webhook_from_persisted hook_parser hook (chars "si:other") ≡ ok hook)
    × ((u : Unit {0}) × (h : Host) × (hook_parser.parse hook ≡ some u)
        × (hook_parser.scheme u ≡ chars "https")
        × (hook_parser.host u ≡ some h)
        × IsPublicHost h
        × (hook_parser.has_query u ≡ false)
        × (hook_parser.has_fragment u ≡ false))
webhook_from_persisted-webhook_url_example =
    webhook_from_persisted-webhook_url hook_parser hook_laws hook (chars "si:scout")
      (chars "si:other") hook-accepted

abbrev request : NotificationSettingsUpdate
request = record {
  webhook_url = some hook;
  todo_list_subscription =
      some (record { scope = specific_statuses; statuses = blocked ∷ completed ∷ [] });
}

abbrev desired : ValidatedNotificationSettingsUpdate
desired = record {
  webhook_url = some hook;
  todo_list_subscription =
      some (record { scope = specific_statuses; statuses = completed ∷ blocked ∷ [] });
}

abbrev quiet : NotificationSettingsUpdate
quiet = record { webhook_url = none; todo_list_subscription = none }

abbrev empty_state : SettingsState
empty_state = record { row = none; audit = [] }

abbrev created : NotificationSettings
created = record {
  webhook_url = some hook;
  todo_list_subscription = desired.todo_list_subscription;
  version = pos 1;
  updated_at = some 50;
}

abbrev created_state : SettingsState
created_state = record {
  row = some (record {
    webhook_url = some hook;
    todo_list_scope = some specific_statuses;
    todo_list_statuses = completed ∷ blocked ∷ [];
    version = pos 1;
    updated_at = 50;
  });
  audit =
      record {
        action = "notification_settings.created";
        silicon = public_ref scout;
        changed_fields = "webhook_url" ∷ "todo_list_subscription" ∷ [];
        from_version = pos 0;
        to_version = pos 1;
        webhook_configured = true;
        todo_list_subscribed = true;
      }
      ∷ [];
}

first-accepted :
    replace_settings hook_parser scout 50 empty_state request 0 (chars "r-1")
    ≡ ok (created, created_state)
unfolding replace_settings public_ref replace_absent validate_request_id validate_settings
    validate_rule new_rule check_scope ensure_unique observe sort_statuses insert_status
    status_sort_key status_beq insert_settings rule_columns into_settings persisted_rule
    persisted_version rule_from_persisted notification_version webhook_url webhook_from_persisted
    validate_webhook_url check_raw check_parts check_host trim_end_dots ends_with byte_len
    utf8_width trim trim_start trim_end is_whitespace is_control list_beq eq_ignore_ascii_case
    to_ascii_lowercase ascii_lower
first-accepted = refl

replace_settings-IsSettled_example :
    (d : ValidatedNotificationSettingsUpdate) × (validate_settings hook_parser request
        (chars "si:scout")
      ≡ ok d)
    × IsSettled hook_parser scout d 0 created created_state
    × IsStep empty_state 0 created created_state
replace_settings-IsSettled_example =
    replace_settings-IsSettled hook_parser scout hook_laws 50 empty_state request 0 (chars "r-1")
      first-accepted

replace_settings-retry_example :
    replace_settings hook_parser scout 90 created_state request 0 (chars "r-1")
    ≡ ok (created, created_state)
replace_settings-retry_example =
    replace_settings-retry hook_parser scout hook_laws 50 90 empty_state request 0 (chars "r-1")
      first-accepted

id-accepted : validate_request_id (chars "r-2") ≡ ok tt
unfolding validate_request_id byte_len utf8_width trim trim_start trim_end is_whitespace is_control
    list_beq
id-accepted = refl

quiet-accepted :
    validate_settings hook_parser quiet (chars "si:scout")
    ≡ ok (record { webhook_url = none; todo_list_subscription = none })
unfolding validate_settings
quiet-accepted = refl

quiet-differs :
    configuration_eq created (record { webhook_url = none; todo_list_subscription = none }) ≡ false
unfolding configuration_eq option_beq
quiet-differs = refl

replace_settings-conflict_example :
    replace_settings hook_parser scout 90 created_state quiet 0 (chars "r-2") ≡ err version_conflict
replace_settings-conflict_example =
    replace_settings-conflict hook_parser scout hook_laws 50 90 empty_state request quiet 0
      (chars "r-1") (chars "r-2") (record { webhook_url = none; todo_list_subscription = none })
      first-accepted refl id-accepted quiet-accepted quiet-differs

-- A list rule for every update, and a rule of the todo for completion.
abbrev routing_row : EffectiveRoutingRow
routing_row = record {
  webhook_url = some hook;
  todo_list_scope = some any_update;
  todo_list_statuses = [];
  destination_version = pos 4;
  todo_scope = some specific_statuses;
  todo_statuses = some (completed ∷ []);
  todo_version = some (pos 7);
}

abbrev snapshot : WebhookRoutingSnapshot
snapshot = record {
  webhook_url = hook;
  destination_version = pos 4;
  subscription_level = todo_level;
  subscription_scope = specific_statuses;
  subscription_version = pos 7;
}

completion-routed :
    into_snapshot hook_parser routing_row (chars "si:scout") (some completed) ≡ ok (some snapshot)
unfolding into_snapshot snapshot_to effective_rule route_by routing_snapshot matches_update int_beq
    persisted_rule persisted_version rule_from_persisted notification_version new_rule check_scope
    ensure_unique observe sort_statuses insert_status status_sort_key status_beq webhook_url
    webhook_from_persisted validate_webhook_url check_raw check_parts check_host trim_end_dots
    ends_with byte_len utf8_width trim trim_start trim_end is_whitespace is_control list_beq
    eq_ignore_ascii_case to_ascii_lowercase ascii_lower
completion-routed = refl

into_snapshot-Routing_example : Routing routing_row (some completed) (some snapshot)
into_snapshot-Routing_example =
    into_snapshot-Routing hook_parser routing_row (chars "si:scout") (some completed) hook refl
      completion-routed
