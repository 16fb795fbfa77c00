-- ===== src/Application/Notifications/Outcomes.antt =====
-- What a successful replacement of settings returns, stores and records.
use silicon_commit.Base.{
  ℕ, suc, ◌≤◌, ◌≡◌, refl, ap, ◌∙◌, sym, List, [], ◌∷◌, none, some, ok, ok_or, arith, pos, bind-ok,
  ℤ, true, not, nat_beq, fail_if,
}
use silicon_commit.Domain.Actor.{Actor, public_ref}
use silicon_commit.Domain.Url.{UrlParser}
use silicon_commit.Domain.Todo.{Time, is_some}
use silicon_commit.Domain.Notification.Version.{i64_max}
use silicon_commit.Domain.Notification.Settings.{
  NotificationSettings, ValidatedNotificationSettingsUpdate, configuration_eq, configuration_eq_iff,
}
use silicon_commit.Postgres.Notifications.{
  SettingsRow, into_settings, insert_settings, update_settings,
}
use silicon_commit.Postgres.Notifications.RoundTrip.{IsReadable, settings_of}
use silicon_commit.Application.Notifications.{
  replace_stored, apply_decision, replace_absent, changed_settings_fields, replacement_decision,
  return_current, replace, conflicting, SettingsState, AuditEvent, version_conflict,
  ReplacementDecision,
}
use silicon_commit.Application.Notifications.Replacement.{
  decision-return_current, decision-replace, into_settings-version, inserted_settings,
  updated_settings,
}

-- The settings `t` of the state `s` hold the configuration `d`, and a retry that expects version `e`
-- finds them at version `n`.
pub record IsSettled (p : UrlParser) (subject : Actor) (d : ValidatedNotificationSettingsUpdate)
    (e : ℕ) (t : NotificationSettings) (s : SettingsState) : Type 0 where
  pub row : SettingsRow
  pub stored : s.row ≡ some row
  pub read : into_settings p row subject.id ≡ ok t
  pub holds : configuration_eq t d ≡ true
  pub n : ℕ
  pub version : t.version ≡ pos n
  pub not_older : e ≤ n
  pub in_range : e ≤ i64_max

-- The first accepted request writes one version and one audit event; a repeated one writes nothing.
pub data IsStep (s : SettingsState) (e : ℕ) (t : NotificationSettings) (s' : SettingsState)
    : Type 0 where
  unchanged : s' ≡ s → IsStep s e t s'
  written :
      t.version ≡ pos (suc e)
      → (event : AuditEvent) → s'.audit ≡ event ∷ s.audit
      → event.to_version ≡ pos (suc e)
      → event.from_version ≡ pos e
      → IsStep s e t s'

holds_settings_of :
    (d : ValidatedNotificationSettingsUpdate) (v : ℤ) (now : Time)
    → configuration_eq (settings_of d v now) d ≡ true
holds_settings_of d v now = (configuration_eq_iff (settings_of d v now) d).1 (refl, refl)

module _ (p : UrlParser) (subject : Actor) (now : Time) (d : ValidatedNotificationSettingsUpdate)
    (readable : IsReadable p subject.id d) (e : ℕ) where
  pub replace_absent-outcome :
      (audit : List AuditEvent) {t : NotificationSettings} {s' : SettingsState}
      → replace_absent p subject now audit d e ≡ ok (t, s')
      → IsSettled p subject d e t s' × IsStep (record { row = none; audit = audit }) e t s'
  unfolding replace_absent
  replace_absent-outcome audit {t} {s'} h =
      let (_, h0, h1) = bind-ok (fail_if (not (nat_beq e 0)) version_conflict) _ h in
      let zero_e : e ≡ 0 = ground arith in
      let (i, h2, h3) = bind-ok (into_settings p (insert_settings d now) subject.id) _ h1 in
      let is_i : settings_of d (pos 1) now ≡ i =
        cc (h2, inserted_settings p subject.id d now readable) in
      let is_t : i ≡ t = cc h3 in
      let e1 : t ≡ settings_of d (pos 1) now = sym (is_i ∙ is_t) in
      let same_row : s'.row ≡ some (insert_settings d now) = cc h3 in
      (
        record {
          row = insert_settings d now;
          stored = same_row;
          read = h2 ∙ ap ok is_t;
          holds = rw e1 (holds_settings_of d (pos 1) now);
          n = 1;
          version = ap (λ x. x.version) e1;
          not_older = omega (arith, zero_e);
          in_range = omega (arith, zero_e);
        },
        written (rw zero_e (ap (λ x. x.version) e1))
            (record {
              action = "notification_settings.created";
              silicon = public_ref subject;
              changed_fields = "webhook_url" ∷ "todo_list_subscription" ∷ [];
              from_version = pos 0;
              to_version = i.version;
              webhook_configured = is_some i.webhook_url;
              todo_list_subscribed = is_some i.todo_list_subscription;
            })
            (cc h3) (rw zero_e (ap (λ x. x.version) (is_t ∙ e1))) (rw zero_e refl),
      )

  applied :
      (g : ReplacementDecision) (c : NotificationSettings) (row : SettingsRow)
      (audit : List AuditEvent) (k : ℕ) {t : NotificationSettings} {s' : SettingsState}
      → into_settings p row subject.id ≡ ok c
      → c.version ≡ pos k
      → row.version ≡ pos k
      → replacement_decision e (pos k) (configuration_eq c d) ≡ g
      → apply_decision p subject now g c row audit d ≡ ok (t, s')
      → IsSettled p subject d e t s' × IsStep (record { row = some row; audit = audit }) e t s'
  unfolding apply_decision
  applied return_current c row audit k {t} {s'} read c_v row_v g h =
      let (holds, le, fits) = decision-return_current e k (configuration_eq c d) g in
      let is_t : c ≡ t = cc h in
      (
        record {
          row = row;
          stored = cc h;
          read = read ∙ ap ok is_t;
          holds = rw (← is_t) holds;
          n = k;
          version = rw (← is_t) c_v;
          not_older = le;
          in_range = fits;
        },
        unchanged (cc h),
      )
  applied replace c row audit k {t} {s'} read c_v row_v g h =
      let (_, same, fits) = decision-replace e k (configuration_eq c d) g in
      let (row', h0, h1) =
        bind-ok (ok_or (update_settings row c.version d now) version_conflict) _ h in
      let upd : update_settings row c.version d now ≡ some row' = ground arith in
      let (i, h2, h3) = bind-ok (into_settings p row' subject.id) _ h1 in
      let is_i = updated_settings p subject.id d now row row' c.version k readable row_v upd in
      let is_t : i ≡ t = cc h3 in
      let e1 : t ≡ settings_of d (pos (suc k)) row'.updated_at = cc (h2, is_i, is_t) in
      (
        record {
          row = row';
          stored = cc h3;
          read = h2 ∙ ap ok is_t;
          holds = rw e1 (holds_settings_of d (pos (suc k)) row'.updated_at);
          n = suc k;
          version = ap (λ x. x.version) e1;
          not_older = omega (arith, same);
          in_range = fits;
        },
        written (rw same (ap (λ x. x.version) e1))
            (record {
              action = "notification_settings.updated";
              silicon = public_ref subject;
              changed_fields = changed_settings_fields c d;
              from_version = c.version;
              to_version = i.version;
              webhook_configured = is_some i.webhook_url;
              todo_list_subscribed = is_some i.todo_list_subscription;
            })
            (cc h3) (rw same (ap (λ x. x.version) (is_t ∙ e1))) (rw same c_v),
      )
  applied conflicting c row audit k read c_v row_v g h = cc h

  pub replace_stored-outcome :
      (row : SettingsRow) (audit : List AuditEvent) {t : NotificationSettings} {s' : SettingsState}
      → replace_stored p subject now row audit d e ≡ ok (t, s')
      → IsSettled p subject d e t s' × IsStep (record { row = some row; audit = audit }) e t s'
  unfolding replace_stored
  replace_stored-outcome row audit h =
      let (c, read, h1) = bind-ok (into_settings p row subject.id) _ h in
      let (same_v, k, row_v) = into_settings-version p row subject.id read in
      let c_v : c.version ≡ pos (suc k) = same_v ∙ row_v in
      applied _ c row audit (suc k) read c_v row_v
        (ap (λ v. replacement_decision e v (configuration_eq c d)) (sym c_v)) h1
