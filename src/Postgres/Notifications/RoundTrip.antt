-- ===== src/Postgres/Notifications/RoundTrip.antt =====
-- A validated configuration that is written is read back as it was validated.
use silicon_commit.Base.{
  ℕ, ◌≡◌, refl, Option, none, some, String, ok, traverse, arith, pos, bind-ok, ℤ, zero, negsuc, suc,
}
use silicon_commit.Text.{Text}
use silicon_commit.Domain.Ids.{ActorId}
use silicon_commit.Domain.Url.{UrlParser, UrlLaws}
use silicon_commit.Domain.Todo.{Time}
use silicon_commit.Domain.Notification.Rule.{NotificationRule, NotificationRuleInput, validate_rule}
use silicon_commit.Domain.Notification.Rule.Laws.{rule_from_persisted-new_rule}
use silicon_commit.Domain.Notification.Version.{notification_version}
use silicon_commit.Domain.Notification.Webhook.{WebhookUrl, webhook_url, webhook_from_persisted}
use silicon_commit.Domain.Notification.Webhook.Laws.{webhook_from_persisted-webhook_url}
use silicon_commit.Domain.Notification.Settings.{
  NotificationSettings, NotificationSettingsUpdate, ValidatedNotificationSettingsUpdate,
  validate_settings,
}
use silicon_commit.Postgres.Notifications.{
  SettingsRow, rule_columns, persisted_rule, persisted_version, into_settings,
}

-- A stored version that is read is positive, and is itself.
pub persisted_version-ok :
    (v : ℤ) {w : ℤ} → persisted_version v ≡ ok w → (w ≡ v) × (n : ℕ) × (v ≡ pos (suc n))
unfolding persisted_version notification_version
persisted_version-ok (pos zero) h = ground arith
persisted_version-ok (pos (suc n)) h = (ground arith, n, refl)
persisted_version-ok (negsuc n) h = ground arith

-- Each part of the configuration is read back from its columns, for the account `a`.
pub record IsReadable (p : UrlParser) (a : ActorId) (d : ValidatedNotificationSettingsUpdate)
    : Type 0 where
  pub destination : traverse (λ v. webhook_from_persisted p v a) d.webhook_url ≡ ok d.webhook_url
  pub subscription :
      persisted_rule
        (rule_columns d.todo_list_subscription).0
        (rule_columns d.todo_list_subscription).1
      ≡ ok d.todo_list_subscription

destination_readable :
    (p : UrlParser) (laws : UrlLaws p) (a b : ActorId) (o : Option Text) {d : Option WebhookUrl}
    → traverse (λ v. webhook_url p v a) o ≡ ok d
    → traverse (λ v. webhook_from_persisted p v b) d ≡ ok d
destination_readable p laws a b none {d} h = let e : none ≡ d = cc h in rw (← e) refl
destination_readable p laws a b (some v) {d} h =
    let (t, got, k) = bind-ok (webhook_url p v a) (λ w. ok (some w)) h in
    let e : some t ≡ d = cc k in
    rw (← e) (rw (webhook_from_persisted-webhook_url p laws v a b got).0)

rule_readable :
    (field : String) (o : Option NotificationRuleInput) {d : Option NotificationRule}
    → traverse (validate_rule field) o ≡ ok d
    → persisted_rule (rule_columns d).0 (rule_columns d).1 ≡ ok d
unfolding persisted_rule rule_columns validate_rule
rule_readable field none {d} h = let e : none ≡ d = cc h in rw (← e) refl
rule_readable field (some r) {d} h =
    let (t, got, k) = bind-ok (validate_rule field r) (λ w. ok (some w)) h in
    let e : some t ≡ d = cc k in
    rw (← e) (rw (rule_from_persisted-new_rule field r.scope r.statuses got))

validate_steps :
    (p : UrlParser) (a : ActorId) (u : NotificationSettingsUpdate)
    {d : ValidatedNotificationSettingsUpdate}
    → validate_settings p u a ≡ ok d
    → (traverse (λ v. webhook_url p v a) u.webhook_url ≡ ok d.webhook_url)
      × (traverse (validate_rule "todo_list_subscription") u.todo_list_subscription
          ≡ ok d.todo_list_subscription)
unfolding validate_settings
validate_steps p a u h = ground arith

-- What was validated for one account is readable for every account.
pub validate_settings-IsReadable :
    (p : UrlParser) (laws : UrlLaws p) (a b : ActorId) (u : NotificationSettingsUpdate)
    {d : ValidatedNotificationSettingsUpdate}
    → validate_settings p u a ≡ ok d
    → IsReadable p b d
validate_settings-IsReadable p laws a b u h =
    let (w, r) = validate_steps p a u h in
    record {
      destination = destination_readable p laws a b u.webhook_url w;
      subscription = rule_readable "todo_list_subscription" u.todo_list_subscription r;
    }

-- A row that holds the columns of a configuration.
pub record HoldsColumns (row : SettingsRow) (d : ValidatedNotificationSettingsUpdate) : Type 0 where
  pub destination : row.webhook_url ≡ d.webhook_url
  pub scope : row.todo_list_scope ≡ (rule_columns d.todo_list_subscription).0
  pub statuses : row.todo_list_statuses ≡ (rule_columns d.todo_list_subscription).1

abbrev pub settings_of : ValidatedNotificationSettingsUpdate → ℤ → Time → NotificationSettings
settings_of d version updated_at = record {
  webhook_url = d.webhook_url;
  todo_list_subscription = d.todo_list_subscription;
  version = version;
  updated_at = some updated_at;
}

pub into_settings_of_columns :
    (p : UrlParser) (a : ActorId) (d : ValidatedNotificationSettingsUpdate) (row : SettingsRow)
    (n : ℕ)
    → IsReadable p a d
    → HoldsColumns row d
    → row.version ≡ pos (suc n)
    → into_settings p row a ≡ ok (settings_of d row.version row.updated_at)
unfolding into_settings persisted_version
into_settings_of_columns p a d row n r h v =
    rw (h.destination, r.destination, h.scope, h.statuses, r.subscription, v) (ground arith)
