-- ===== src/Domain/Notification/Settings.antt =====
-- Notification settings and todo subscriptions: the resources, their replacement documents, and the
-- comparison of configurations (src/domain/notification.rs).
use silicon_commit.Base.{
  Bool, ◌&&◌, ◌≡◌, ◌↔◌, Option, none, ok, traverse, ◌>>=◌, ◌==◌, Eq, option_eq, list_eq, nat_eq,
  pos, arith, true, false, option_beq_iff, list_beq_iff,
}
use silicon_commit.Text.{Text}
use silicon_commit.Domain.Ids.{ActorId, TodoId}
use silicon_commit.Domain.Url.{UrlParser}
use silicon_commit.Domain.Validation.{Validated}
use silicon_commit.Domain.Todo.{Time}
use silicon_commit.Domain.Todo.Status.{status_eq}
use silicon_commit.Domain.Notification.Rule.{
  NotificationScope, any_update, status_updates, specific_statuses, NotificationRule,
  NotificationRuleInput, validate_rule,
}
use silicon_commit.Domain.Notification.Version.{NotificationVersion}
use silicon_commit.Domain.Notification.Webhook.{WebhookUrl, webhook_url}

unfoldable pub scope_beq : NotificationScope → NotificationScope → Bool
scope_beq any_update any_update = true
scope_beq status_updates status_updates = true
scope_beq specific_statuses specific_statuses = true
scope_beq _ _ = false

pub scope_beq_iff : (a b : NotificationScope) → (scope_beq a b ≡ true) ↔ (a ≡ b)
unfolding scope_beq
scope_beq_iff any_update any_update = ground arith
scope_beq_iff _ _ = ground arith

-- The derived `PartialEq` of `NotificationRule`
unfoldable pub rule_beq : NotificationRule → NotificationRule → Bool
rule_beq a b = scope_beq a.scope b.scope && a.statuses == b.statuses

pub rule_beq_iff : (a b : NotificationRule) → (rule_beq a b ≡ true) ↔ (a ≡ b)
unfolding rule_beq
rule_beq_iff a b = ground (arith, scope_beq_iff a.scope b.scope, list_beq_iff a.statuses b.statuses)

instance abbrev pub rule_eq : Eq NotificationRule
rule_eq = record { same = rule_beq; same_iff = rule_beq_iff }

pub record NotificationSettings : Type 0 where
  pub webhook_url : Option WebhookUrl
  pub todo_list_subscription : Option NotificationRule
  pub version : NotificationVersion
  pub updated_at : Option Time

-- `NotificationSettings::empty`
abbrev pub empty_settings : NotificationSettings
empty_settings = record {
  webhook_url = none;
  todo_list_subscription = none;
  version = pos 0;
  updated_at = none;
}

pub record NotificationSettingsUpdate : Type 0 where
  pub webhook_url : Option Text
  pub todo_list_subscription : Option NotificationRuleInput

pub record ValidatedNotificationSettingsUpdate : Type 0 where
  pub webhook_url : Option WebhookUrl
  pub todo_list_subscription : Option NotificationRule

-- `NotificationSettings::configuration_eq`
unfoldable pub configuration_eq : NotificationSettings → ValidatedNotificationSettingsUpdate → Bool
configuration_eq current desired =
    current.webhook_url == desired.webhook_url
    && current.todo_list_subscription == desired.todo_list_subscription

-- `NotificationSettingsUpdate::validate`
unfoldable pub validate_settings :
    UrlParser → NotificationSettingsUpdate → ActorId → Validated ValidatedNotificationSettingsUpdate
validate_settings p update represented_actor_id = do
  destination ← traverse (λ value. webhook_url p value represented_actor_id) update.webhook_url
  subscription ← traverse (validate_rule "todo_list_subscription") update.todo_list_subscription
  ok (record { webhook_url = destination; todo_list_subscription = subscription })

pub record TodoNotificationSubscription : Type 0 where
  pub todo_id : TodoId
  pub subscription : Option NotificationRule
  pub version : NotificationVersion
  pub updated_at : Option Time

-- `TodoNotificationSubscription::empty`
abbrev pub empty_subscription : TodoId → TodoNotificationSubscription
empty_subscription todo_id = record {
  todo_id = todo_id;
  subscription = none;
  version = pos 0;
  updated_at = none;
}

-- `TodoNotificationSubscriptionUpdate::validate`
unfoldable pub validate_subscription :
    Option NotificationRuleInput → Validated (Option NotificationRule)
validate_subscription = traverse (validate_rule "subscription")

-- Two configurations compare equal exactly when both replaceable fields are the same.
pub configuration_eq_iff :
    (c : NotificationSettings) (d : ValidatedNotificationSettingsUpdate)
    → (configuration_eq c d ≡ true)
      ↔ ((c.webhook_url ≡ d.webhook_url) × (c.todo_list_subscription ≡ d.todo_list_subscription))
unfolding configuration_eq
configuration_eq_iff c d = ground (
  arith,
  option_beq_iff c.webhook_url d.webhook_url,
  option_beq_iff c.todo_list_subscription d.todo_list_subscription,
)
