-- ===== src/Postgres/Notifications/Routing.antt =====
-- The effective routing of an update: the endpoint, and the rule that selects the update
-- (`EffectiveRoutingRow` of src/infrastructure/postgres/notifications.rs,
-- `WebhookRoutingSnapshot` of src/application/ports.rs).
pub mod Laws
use silicon_commit.Base.{
  ℕ, zero, suc, ◌≡◌, refl, ap, ◌∙◌, sym, Bool, true, false, not, ◌||◌, List, [], Option, none, some,
  ok, err, map_err, ok_or, traverse, ◌>>=◌, ◌>>◌, fail_if, ℤ, pos, ◌==◌, int_eq, int_beq,
  if◌then◌else◌, arith, Result, bind-ok,
}
use silicon_commit.Text.{Text}
use silicon_commit.Domain.Ids.{ActorId}
use silicon_commit.Domain.Url.{UrlParser}
use silicon_commit.Domain.Todo.Status.{TodoStatus}
use silicon_commit.Domain.Notification.Rule.{
  NotificationScope, NotificationRule, NotificationSubscriptionLevel, list_level, todo_level,
  matches_update,
}
use silicon_commit.Domain.Notification.Version.{NotificationVersion}
use silicon_commit.Domain.Notification.Webhook.{WebhookUrl, webhook_from_persisted}
use silicon_commit.Postgres.Notifications.{corrupt, persisted_rule, persisted_version}
use silicon_commit.Error.{Fallible, AppError}

pub record WebhookRoutingSnapshot : Type 0 where
  pub webhook_url : WebhookUrl
  pub destination_version : NotificationVersion
  pub subscription_level : NotificationSubscriptionLevel
  pub subscription_scope : NotificationScope
  pub subscription_version : NotificationVersion

pub data WebhookRoutingSnapshotError : Type 0 where
  non_positive_version : WebhookRoutingSnapshotError

-- `WebhookRoutingSnapshot::new`
unfoldable pub routing_snapshot :
    WebhookUrl
    → NotificationVersion
    → NotificationSubscriptionLevel
    → NotificationScope
    → NotificationVersion
    → Result WebhookRoutingSnapshot WebhookRoutingSnapshotError
routing_snapshot url destination level scope subscription =
    if destination == pos 0 || subscription == pos 0
    then err non_positive_version
    else ok (record {
      webhook_url = url;
      destination_version = destination;
      subscription_level = level;
      subscription_scope = scope;
      subscription_version = subscription;
    })

pub record EffectiveRoutingRow : Type 0 where
  pub webhook_url : Option Text
  pub todo_list_scope : Option NotificationScope
  pub todo_list_statuses : List TodoStatus
  pub destination_version : ℤ
  pub todo_scope : Option NotificationScope
  pub todo_statuses : Option (List TodoStatus)
  pub todo_version : Option ℤ

-- `Option::unwrap_or_default`
abbrev pub statuses_or_empty : Option (List TodoStatus) → List TodoStatus
statuses_or_empty none = []
statuses_or_empty (some ss) = ss

-- The choice of the rule: the todo's own, or else the list's.
unfoldable pub effective_rule :
    Option NotificationRule
    → Option ℤ
    → Option NotificationRule
    → NotificationVersion
    → Fallible (Option (NotificationSubscriptionLevel × NotificationRule × NotificationVersion))
effective_rule (some rule) todo_version list_rule destination_version = do
  stored ← ok_or todo_version corrupt
  version ← persisted_version stored
  ok (some (todo_level, rule, version))
effective_rule none todo_version none destination_version = ok none
effective_rule none todo_version (some rule) destination_version =
    ok (some (list_level, rule, destination_version))

-- The end of `into_snapshot`, from the chosen rule on
unfoldable pub route_by :
    WebhookUrl
    → NotificationVersion
    → Option TodoStatus
    → Option (NotificationSubscriptionLevel × NotificationRule × NotificationVersion)
    → Fallible (Option WebhookRoutingSnapshot)
unfolding routing_snapshot
route_by url destination_version resulting none = ok none
route_by url destination_version resulting (some (level, rule, version)) =
    if not (matches_update rule resulting)
    then ok none
    else (map_err (λ _. corrupt) (routing_snapshot url destination_version level rule.scope version)
        >>= λ s. ok (some s))

-- The rest of `into_snapshot` for the endpoint `value`
unfoldable pub snapshot_to :
    UrlParser
    → EffectiveRoutingRow
    → ActorId
    → Option TodoStatus
    → Text
    → Fallible (Option WebhookRoutingSnapshot)
unfolding effective_rule route_by
snapshot_to p row assigned_by resulting value = do
  url ← map_err (λ _. corrupt) (webhook_from_persisted p value assigned_by)
  destination_version ← persisted_version row.destination_version
  list_rule ← persisted_rule row.todo_list_scope row.todo_list_statuses
  todo_rule ← persisted_rule row.todo_scope (statuses_or_empty row.todo_statuses)
  chosen ← effective_rule todo_rule row.todo_version list_rule destination_version
  route_by url destination_version resulting chosen

-- `EffectiveRoutingRow::into_snapshot`, for the account that assigned the todo
unfoldable pub into_snapshot :
    UrlParser
    → EffectiveRoutingRow
    → ActorId
    → Option TodoStatus
    → Fallible (Option WebhookRoutingSnapshot)
unfolding snapshot_to
into_snapshot p row assigned_by resulting = elim row.webhook_url [
  | none ↦ ok none
  | some value ↦ snapshot_to p row assigned_by resulting value
]
