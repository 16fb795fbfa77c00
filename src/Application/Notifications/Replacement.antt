-- ===== src/Application/Notifications/Replacement.antt =====
-- Replacing settings: what a success returns and stores, retries, and conflicts.
use silicon_commit.Base.{
  ℕ, suc, ◌≤◌, ◌≡◌, refl, some, ok, map_err, arith, pos, bind-ok, ℤ, Bool, true, false, int_eq,
  int_beq, option_eq, list_eq, nat_eq, traverse,
}
use silicon_commit.Domain.Ids.{ActorId}
use silicon_commit.Domain.Url.{UrlParser}
use silicon_commit.Domain.Todo.{Time}
use silicon_commit.Domain.Notification.Version.{matches, i64_max, notification_version}
use silicon_commit.Domain.Notification.Settings.{
  NotificationSettings, ValidatedNotificationSettingsUpdate, rule_eq,
}
use silicon_commit.Domain.Notification.Webhook.{webhook_from_persisted}
use silicon_commit.Postgres.Notifications.{
  SettingsRow, into_settings, insert_settings, update_settings, next_version, rule_columns,
  persisted_version, corrupt, persisted_rule,
}
use silicon_commit.Postgres.Notifications.RoundTrip.{
  persisted_version-ok, IsReadable, settings_of, into_settings_of_columns,
}
use silicon_commit.Application.Notifications.{
  replacement_decision, return_current, replace, conflicting,
}

-- A retry is answered from the current settings when they hold the desired configuration and the
-- expected version is not above theirs.
pub decision_of_match :
    (e n : ℕ) → e ≤ n → e ≤ i64_max → replacement_decision e (pos n) true ≡ return_current
unfolding replacement_decision matches int_beq
decision_of_match e n h k = ground arith

-- The version after the expected one conflicts with any other configuration.
pub decision_of_stale : (e : ℕ) → replacement_decision e (pos (suc e)) false ≡ conflicting
unfolding replacement_decision matches int_beq
decision_of_stale e = ground arith

pub decision-return_current :
    (e n : ℕ) (m : Bool)
    → replacement_decision e (pos n) m ≡ return_current
    → (m ≡ true) × (e ≤ n) × (e ≤ i64_max)
unfolding replacement_decision matches int_beq
decision-return_current e n m h = ground arith

pub decision-replace :
    (e n : ℕ) (m : Bool)
    → replacement_decision e (pos n) m ≡ replace
    → (m ≡ false) × (e ≡ n) × (e ≤ i64_max)
unfolding replacement_decision matches int_beq
decision-replace e n m h = ground arith

-- A row that is read holds a positive version, which is the settings'.
pub into_settings-version :
    (p : UrlParser) (row : SettingsRow) (a : ActorId) {t : NotificationSettings}
    → into_settings p row a ≡ ok t
    → (t.version ≡ row.version) × (n : ℕ) × (row.version ≡ pos (suc n))
unfolding into_settings
into_settings-version p row a {t} h =
    let (w, _, h1) =
      bind-ok
        (map_err (λ _. corrupt) (traverse (λ v. webhook_from_persisted p v a) row.webhook_url)) _
        h in
    let (r, _, h2) = bind-ok (persisted_rule row.todo_list_scope row.todo_list_statuses) _ h1 in
    let (v, got, h3) = bind-ok (persisted_version row.version) _ h2 in
    let (e, n, k) = persisted_version-ok row.version got in (cc (h3, e), n, k)

persisted_positive : (n : ℕ) → persisted_version (pos (suc n)) ≡ ok (pos (suc n))
unfolding persisted_version notification_version
persisted_positive n = ground arith

-- The row that is written for a configuration is read back as the settings of that configuration.
pub inserted_settings :
    (p : UrlParser) (a : ActorId) (d : ValidatedNotificationSettingsUpdate) (now : Time)
    → IsReadable p a d
    → into_settings p (insert_settings d now) a ≡ ok (settings_of d (pos 1) now)
unfolding insert_settings
inserted_settings p a d now r =
    into_settings_of_columns p a d _ 0 r
      (record { destination = refl; scope = refl; statuses = refl }) refl

pub updated_settings :
    (p : UrlParser) (a : ActorId) (d : ValidatedNotificationSettingsUpdate) (now : Time)
    (row row' : SettingsRow) (v : ℤ) (n : ℕ)
    → IsReadable p a d
    → row.version ≡ pos n
    → update_settings row v d now ≡ some row'
    → into_settings p row' a ≡ ok (settings_of d (pos (suc n)) row'.updated_at)
unfolding update_settings next_version
updated_settings p a d now row row' v n r e h =
    let (h1, h2, h3, h4) : (row'.webhook_url ≡ d.webhook_url)
        × (row'.todo_list_scope ≡ (rule_columns d.todo_list_subscription).0)
        × (row'.todo_list_statuses ≡ (rule_columns d.todo_list_subscription).1)
        × (row'.version ≡ next_version row.version) =
      ground arith in
    let e' : row'.version ≡ pos (suc n) = rw (h4, e) (ground arith) in
    rw
      (into_settings_of_columns p a d row' n r
        (record { destination = h1; scope = h2; statuses = h3 }) e')
      (ground arith)
