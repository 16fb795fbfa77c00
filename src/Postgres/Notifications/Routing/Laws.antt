-- ===== src/Postgres/Notifications/Routing/Laws.antt =====
-- What an effective routing selects.
use silicon_commit.Base.{
  ◌≡◌, refl, ap, subst, ◌∙◌, sym, inl, inr, true, false, Bool-cases, Option, none, some, ok,
  map_err, ok_or, ℤ, arith, bind-ok,
}
use silicon_commit.Text.{Text}
use silicon_commit.Domain.Ids.{ActorId}
use silicon_commit.Domain.Url.{UrlParser}
use silicon_commit.Domain.Todo.Status.{TodoStatus}
use silicon_commit.Domain.Notification.Rule.{
  NotificationRule, NotificationSubscriptionLevel, list_level, todo_level, matches_update,
}
use silicon_commit.Domain.Notification.Version.{NotificationVersion}
use silicon_commit.Domain.Notification.Webhook.{WebhookUrl, webhook_from_persisted}
use silicon_commit.Postgres.Notifications.{corrupt, persisted_rule, persisted_version}
use silicon_commit.Postgres.Notifications.RoundTrip.{persisted_version-ok}
use silicon_commit.Postgres.Notifications.Routing.{
  WebhookRoutingSnapshot, routing_snapshot, EffectiveRoutingRow, statuses_or_empty, effective_rule,
  route_by, snapshot_to, into_snapshot,
}

-- The rule that governs a todo, by the columns of the row: its own, and only without one the list's.
pub data Governs (row : EffectiveRoutingRow)
    : NotificationSubscriptionLevel → NotificationRule → ℤ → Type 0 where
  by_todo :
      (rule : NotificationRule) (version : ℤ)
      → persisted_rule row.todo_scope (statuses_or_empty row.todo_statuses) ≡ ok (some rule)
      → row.todo_version ≡ some version
      → Governs row todo_level rule version
  by_list :
      (rule : NotificationRule)
      → persisted_rule row.todo_scope (statuses_or_empty row.todo_statuses) ≡ ok none
      → persisted_rule row.todo_list_scope row.todo_list_statuses ≡ ok (some rule)
      → Governs row list_level rule row.destination_version

-- The governing rule selects the update, and the snapshot is taken from it.
pub record IsRouted (row : EffectiveRoutingRow) (change : Option TodoStatus)
    (snap : WebhookRoutingSnapshot) : Type 0 where
  pub rule : NotificationRule
  pub governs : Governs row snap.subscription_level rule snap.subscription_version
  pub selected : matches_update rule change ≡ true
  pub scope : snap.subscription_scope ≡ rule.scope
  pub destination : snap.destination_version ≡ row.destination_version

-- No rule governs the todo, or the governing one does not select the update.
pub data IsUnrouted (row : EffectiveRoutingRow) (change : Option TodoStatus) : Type 0 where
  ungoverned :
      persisted_rule row.todo_scope (statuses_or_empty row.todo_statuses) ≡ ok none
      → persisted_rule row.todo_list_scope row.todo_list_statuses ≡ ok none
      → IsUnrouted row change
  unselected :
      (level : NotificationSubscriptionLevel) (rule : NotificationRule) (version : ℤ)
      → Governs row level rule version
      → matches_update rule change ≡ false
      → IsUnrouted row change

abbrev pub Routing :
    EffectiveRoutingRow → Option TodoStatus → Option WebhookRoutingSnapshot → Type 0
Routing row change none = IsUnrouted row change
Routing row change (some snap) = IsRouted row change snap

-- What the choice of a rule found.
abbrev Chosen :
    EffectiveRoutingRow
    → Option (NotificationSubscriptionLevel × NotificationRule × NotificationVersion)
    → Type 0
Chosen row none =
    (persisted_rule row.todo_scope (statuses_or_empty row.todo_statuses) ≡ ok none)
    × (persisted_rule row.todo_list_scope row.todo_list_statuses ≡ ok none)
Chosen row (some (level, rule, version)) = Governs row level rule version

effective_rule-Chosen :
    (row : EffectiveRoutingRow) (todo_rule list_rule : Option NotificationRule) (dv : ℤ)
    {c : Option (NotificationSubscriptionLevel × NotificationRule × NotificationVersion)}
    → persisted_rule row.todo_scope (statuses_or_empty row.todo_statuses) ≡ ok todo_rule
    → persisted_rule row.todo_list_scope row.todo_list_statuses ≡ ok list_rule
    → dv ≡ row.destination_version
    → effective_rule todo_rule row.todo_version list_rule dv ≡ ok c
    → Chosen row c
unfolding effective_rule
effective_rule-Chosen row none none dv t l e h =
    let k : none ≡ _ = cc h in subst (Chosen row) k (t, l)
effective_rule-Chosen row none (some r) dv t l e h =
    let k : some (list_level, r, dv) ≡ _ = cc h in
    subst (Chosen row) (ap (λ v. some (list_level, r, v)) (sym e) ∙ k) (by_list r t l)
effective_rule-Chosen row (some r) list_rule dv {c} t l e h =
    let (stored, h0, h1) = bind-ok (ok_or row.todo_version corrupt) _ h in
    let (v, h2, h3) = bind-ok (persisted_version stored) _ h1 in
    let (same, _, _) = persisted_version-ok stored h2 in
    let k : some (todo_level, r, v) ≡ c = cc h3 in
    subst (Chosen row) k (by_todo r v t (ground (arith, same)))

route_by-Routing :
    (row : EffectiveRoutingRow) (url : WebhookUrl) (dv : ℤ) (change : Option TodoStatus)
    (c : Option (NotificationSubscriptionLevel × NotificationRule × NotificationVersion))
    {r : Option WebhookRoutingSnapshot}
    → Chosen row c
    → dv ≡ row.destination_version
    → route_by url dv change c ≡ ok r
    → Routing row change r
unfolding route_by routing_snapshot
route_by-Routing row url dv change none (t, l) e h =
    let k : none ≡ _ = cc h in subst (Routing row change) k (ungoverned t l)
route_by-Routing row url dv change (some (level, rule, version)) {r} g e h =
    elim (Bool-cases (matches_update rule change)) [
      | inl taken ↦
          let k : some (record {
            webhook_url = url;
            destination_version = dv;
            subscription_level = level;
            subscription_scope = rule.scope;
            subscription_version = version;
          })
              ≡ r =
            ground arith in
          subst (Routing row change) k
            (record { rule = rule; governs = g; selected = taken; scope = refl; destination = e })
      | inr left_out ↦
          let k : none ≡ r = ground arith in
          subst (Routing row change) k (unselected level rule version g left_out)
    ]

-- If the effective routing of an update is computed for a row with an endpoint, it follows the
-- governing rule, the todo's own before the list's: a snapshot is taken from that rule and its
-- version, and only if the rule selects the update; no snapshot means that no rule governs, or that
-- the governing one does not select the update.
pub into_snapshot-Routing :
    (p : UrlParser) (row : EffectiveRoutingRow) (a : ActorId) (change : Option TodoStatus)
    (url : Text) {r : Option WebhookRoutingSnapshot}
    → row.webhook_url ≡ some url
    → into_snapshot p row a change ≡ ok r
    → Routing row change r
unfolding into_snapshot snapshot_to
into_snapshot-Routing p row a change url {r} given h =
    let h0 : snapshot_to p row a change url ≡ ok r = (rw given refl) ∙ h in
    let (u, _, h1) = bind-ok (map_err (λ _. corrupt) (webhook_from_persisted p url a)) _ h0 in
    let (dv, h2, h3) = bind-ok (persisted_version row.destination_version) _ h1 in
    let (l, h4, h5) = bind-ok (persisted_rule row.todo_list_scope row.todo_list_statuses) _ h3 in
    let (t, h6, h7) =
      bind-ok (persisted_rule row.todo_scope (statuses_or_empty row.todo_statuses)) _ h5 in
    let (c, h8, h9) = bind-ok (effective_rule t row.todo_version l dv) _ h7 in
    let (e, _, _) = persisted_version-ok row.destination_version h2 in
    route_by-Routing row u dv change c (effective_rule-Chosen row t l dv h6 h4 e h8) e h9
