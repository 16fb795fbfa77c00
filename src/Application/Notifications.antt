-- ===== src/Application/Notifications.antt =====
-- src/application/notifications.rs: replacing a Silicon's notification settings under optimistic
-- concurrency. The row of the Silicon is locked, so a request is one step on that row; the row and
-- the audit events are the state, and an error leaves both as they were (the transaction is rolled
-- back).
pub mod Replacement
pub mod Outcomes
pub mod Requests
use silicon_commit.Base.{
  ℕ, Bool, true, false, not, List, [], ◌∷◌, ◌++◌, Option, none, some, String, ltb, nat_beq,
  if◌then◌else◌, Result, ok, err, map_err, ok_or, ◌>>=◌, ◌>>◌, fail_if, ℤ, pos, negsuc, ◌==◌, ◌!=◌,
  option_eq, list_eq, nat_eq, ◌&&◌, ◌||◌, is_empty, any,
}
use silicon_commit.Text.{Text, trim, byte_len, is_control}
use silicon_commit.Domain.Ids.{ActorId, AccountUuid}
use silicon_commit.Domain.Actor.{Actor, ActorRef, public_ref}
use silicon_commit.Domain.Url.{UrlParser}
use silicon_commit.Domain.Todo.{Time, is_some}
use silicon_commit.Domain.Notification.Version.{
  ExpectedNotificationVersion, NotificationVersion, matches, i64_max, as_i64_and,
}
use silicon_commit.Domain.Notification.Settings.{
  NotificationSettings, NotificationSettingsUpdate, ValidatedNotificationSettingsUpdate,
  configuration_eq, validate_settings, rule_eq,
}
use silicon_commit.Postgres.Notifications.{
  SettingsRow, into_settings, insert_settings, update_settings,
}
use silicon_commit.Error.{AppError, conflict, validation, bad_request, Fallible}

pub data ReplacementDecision : Type 0 where
  return_current replace conflicting : ReplacementDecision

-- `i64 < i64` for a version and a value that is not negative
abbrev pub less_than : ℕ → ℤ → Bool
less_than a (pos b) = ltb a b
less_than a (negsuc b) = false

unfoldable pub replacement_decision :
    ExpectedNotificationVersion → NotificationVersion → Bool → ReplacementDecision
replacement_decision expected current desired_matches =
    if matches expected current
    then (if desired_matches then return_current else replace)
    else if desired_matches
        && as_i64_and expected (λ e. elim e [ pos n ↦ less_than n current | negsuc n ↦ true ])
    then return_current
    else conflicting

unfoldable pub version_conflict : AppError
version_conflict = conflict "notification_settings_version_conflict"

unfoldable pub changed_settings_fields :
    NotificationSettings → ValidatedNotificationSettingsUpdate → List String
changed_settings_fields current desired =
    (if current.webhook_url != desired.webhook_url then "webhook_url" ∷ [] else [])
    ++ (if current.todo_list_subscription != desired.todo_list_subscription
        then "todo_list_subscription" ∷ []
        else [])

unfoldable pub validate_request_id : Text → Fallible (Unit {0})
validate_request_id request_id =
    fail_if
      (is_empty request_id
        || ltb 255 (byte_len request_id)
        || trim request_id != request_id
        || any is_control request_id)
      (bad_request "invalid_request_id")

-- The audit event of a replacement: its action and its details. The caller, the request and the
-- retention, which are the same for every event of a request, are left out.
pub record AuditEvent : Type 0 where
  pub action : String
  pub silicon : ActorRef
  pub changed_fields : List String
  pub from_version : ℤ
  pub to_version : ℤ
  pub webhook_configured : Bool
  pub todo_list_subscribed : Bool

-- The rows of one Silicon that the use case reads and writes.
pub record SettingsState : Type 0 where
  pub row : Option SettingsRow
  pub audit : List AuditEvent

module _ (p : UrlParser) (subject : Actor) (now : Time) where
  -- The `match` on the decision
  unfoldable pub apply_decision :
      ReplacementDecision
      → NotificationSettings
      → SettingsRow
      → List AuditEvent
      → ValidatedNotificationSettingsUpdate
      → Fallible (NotificationSettings × SettingsState)
  unfolding changed_settings_fields version_conflict
  apply_decision return_current current row audit desired =
      ok (current, record { row = some row; audit = audit })
  apply_decision conflicting current row audit desired = err version_conflict
  apply_decision replace current row audit desired = do
    row' ← ok_or (update_settings row current.version desired now) version_conflict
    updated ← into_settings p row' subject.id
    let event : AuditEvent = record {
      action = "notification_settings.updated";
      silicon = public_ref subject;
      changed_fields = changed_settings_fields current desired;
      from_version = current.version;
      to_version = updated.version;
      webhook_configured = is_some updated.webhook_url;
      todo_list_subscribed = is_some updated.todo_list_subscription;
    }
    ok (updated, record { row = some row'; audit = event ∷ audit })

  -- The branch of a stored row
  unfoldable pub replace_stored :
      SettingsRow
      → List AuditEvent
      → ValidatedNotificationSettingsUpdate
      → ExpectedNotificationVersion
      → Fallible (NotificationSettings × SettingsState)
  unfolding apply_decision
  replace_stored row audit desired expected = do
    current ← into_settings p row subject.id
    apply_decision
        (replacement_decision expected current.version (configuration_eq current desired)) current
        row audit desired

  -- The branch of an absent row
  unfoldable pub replace_absent :
      List AuditEvent
      → ValidatedNotificationSettingsUpdate
      → ExpectedNotificationVersion
      → Fallible (NotificationSettings × SettingsState)
  unfolding version_conflict
  replace_absent audit desired expected = do
    fail_if (not (nat_beq expected 0)) version_conflict
    let row' = insert_settings desired now
    inserted ← into_settings p row' subject.id
    let event : AuditEvent = record {
      action = "notification_settings.created";
      silicon = public_ref subject;
      changed_fields = "webhook_url" ∷ "todo_list_subscription" ∷ [];
      from_version = pos 0;
      to_version = inserted.version;
      webhook_configured = is_some inserted.webhook_url;
      todo_list_subscribed = is_some inserted.todo_list_subscription;
    }
    ok (inserted, record { row = some row'; audit = event ∷ audit })

  -- `replace_settings`, from the resolved subject on
  unfoldable pub replace_settings :
      SettingsState
      → NotificationSettingsUpdate
      → ExpectedNotificationVersion
      → Text
      → Fallible (NotificationSettings × SettingsState)
  replace_settings s request expected request_id = do
    validate_request_id request_id
    desired ← map_err validation (validate_settings p request subject.id)
    elim s.row [
      | none ↦ replace_absent s.audit desired expected
      | some row ↦ replace_stored row s.audit desired expected
    ]
