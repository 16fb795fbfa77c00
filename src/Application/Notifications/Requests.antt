-- ===== src/Application/Notifications/Requests.antt =====
-- Whole requests to replace settings: success, retry, and the lost update that is refused.
use silicon_commit.Base.{
  ℕ, suc, ◌≡◌, ap, ◌∙◌, List, Option, none, some, ok, err, map_err, map_err-ok, pos, bind-ok, false,
}
use silicon_commit.Text.{Text}
use silicon_commit.Domain.Actor.{Actor}
use silicon_commit.Domain.Url.{UrlParser, UrlLaws}
use silicon_commit.Domain.Todo.{Time}
use silicon_commit.Domain.Notification.Settings.{
  NotificationSettings, NotificationSettingsUpdate, ValidatedNotificationSettingsUpdate,
  configuration_eq, validate_settings,
}
use silicon_commit.Postgres.Notifications.{SettingsRow}
use silicon_commit.Postgres.Notifications.RoundTrip.{IsReadable, validate_settings-IsReadable}
use silicon_commit.Application.Notifications.{
  replace_stored, apply_decision, replace_absent, replacement_decision, return_current, conflicting,
  AuditEvent, SettingsState, version_conflict, replace_settings, validate_request_id,
}
use silicon_commit.Application.Notifications.Replacement.{decision_of_match, decision_of_stale}
use silicon_commit.Application.Notifications.Outcomes.{
  IsSettled, IsStep, replace_absent-outcome, replace_stored-outcome,
}
use silicon_commit.Error.{Fallible, validation}

-- The part of a request after its validation.
abbrev dispatch :
    UrlParser
    → Actor
    → Time
    → SettingsState
    → ValidatedNotificationSettingsUpdate
    → ℕ
    → Fallible (NotificationSettings × SettingsState)
dispatch p subject now s d e = elim s.row [
  | none ↦ replace_absent p subject now s.audit d e
  | some row ↦ replace_stored p subject now row s.audit d e
]

module _ (p : UrlParser) (subject : Actor) where
  accepted :
      (now : Time) (s : SettingsState) (request : NotificationSettingsUpdate) (e : ℕ) (id : Text)
      {t : NotificationSettings} {s' : SettingsState}
      → replace_settings p subject now s request e id ≡ ok (t, s')
      → (d : ValidatedNotificationSettingsUpdate) × (validate_request_id id ≡ ok tt)
        × (validate_settings p request subject.id ≡ ok d)
        × (dispatch p subject now s d e ≡ ok (t, s'))
  unfolding replace_settings
  accepted now s request e id h =
      let (_, h0, h1) = bind-ok (validate_request_id id) _ h in
      let (d, h2, h3) =
        bind-ok (map_err validation (validate_settings p request subject.id)) _ h1 in
      (d, cc h0, map_err-ok validation _ h2, h3)

  dispatched :
      (now : Time) (s : SettingsState) (request : NotificationSettingsUpdate)
      (d : ValidatedNotificationSettingsUpdate) (e : ℕ) (id : Text)
      → validate_request_id id ≡ ok tt
      → validate_settings p request subject.id ≡ ok d
      → replace_settings p subject now s request e id ≡ dispatch p subject now s d e
  unfolding replace_settings
  dispatched now s request d e id h k = rw (h, k)

  outcome :
      (now : Time) (d : ValidatedNotificationSettingsUpdate)
      → IsReadable p subject.id d
      → (e : ℕ) (row : Option SettingsRow) (audit : List AuditEvent) {t : NotificationSettings}
        {s' : SettingsState}
      → dispatch p subject now (record { row = row; audit = audit }) d e ≡ ok (t, s')
      → IsSettled p subject d e t s' × IsStep (record { row = row; audit = audit }) e t s'
  outcome now d r e none audit h = replace_absent-outcome p subject now d r e audit h
  outcome now d r e (some row) audit h = replace_stored-outcome p subject now d r e row audit h

  -- A replacement that is accepted passed validation; the settings it returns are those read from
  -- the row it stores, hold the requested configuration and have a version not below the expected
  -- one; and either nothing changed, or the version is the one after the expected version and one
  -- audit event records that step. The URL parser obeys its laws.
  pub replace_settings-IsSettled :
      (laws : UrlLaws p) (now : Time) (s : SettingsState) (request : NotificationSettingsUpdate)
      (e : ℕ) (id : Text) {t : NotificationSettings} {s' : SettingsState}
      → replace_settings p subject now s request e id ≡ ok (t, s')
      → (d : ValidatedNotificationSettingsUpdate) × (validate_settings p request subject.id ≡ ok d)
        × IsSettled p subject d e t s'
        × IsStep s e t s'
  replace_settings-IsSettled laws now s request e id h =
      let (d, _, valid, k) = accepted now s request e id h in
      let readable = validate_settings-IsReadable p laws subject.id subject.id request valid in
      let (settled, step) = outcome now d readable e s.row s.audit k in (d, valid, settled, step)

  retried :
      (now : Time) (d : ValidatedNotificationSettingsUpdate) (e : ℕ) (t : NotificationSettings)
      (s : SettingsState)
      → IsSettled p subject d e t s
      → dispatch p subject now s d e ≡ ok (t, s)
  unfolding replace_stored apply_decision
  retried now d e t s k =
      let g : replacement_decision e t.version (configuration_eq t d) ≡ return_current =
        ap (λ v. replacement_decision e v (configuration_eq t d)) k.version
        ∙ ap (replacement_decision e (pos k.n)) k.holds
        ∙ decision_of_match e k.n k.not_older k.in_range in
      rw (k.stored, k.read, g)

  -- The retry of a request that was accepted, at any later time, returns the same settings and
  -- leaves the state as it is: no second version and no second audit event. The URL parser obeys
  -- its laws.
  pub replace_settings-retry :
      (laws : UrlLaws p) (now later : Time) (s : SettingsState)
      (request : NotificationSettingsUpdate) (e : ℕ) (id : Text) {t : NotificationSettings}
      {s' : SettingsState}
      → replace_settings p subject now s request e id ≡ ok (t, s')
      → replace_settings p subject later s' request e id ≡ ok (t, s')
  replace_settings-retry laws now later s request e id {t} {s'} h =
      let (d, valid, settled, _) = replace_settings-IsSettled laws now s request e id h in
      let (_, good, _, _) = accepted now s request e id h in
      dispatched later s' request d e id good valid ∙ retried later d e t s' settled

  refused :
      (now : Time) (d other : ValidatedNotificationSettingsUpdate) (e : ℕ)
      (t : NotificationSettings) (s : SettingsState)
      → IsSettled p subject d e t s
      → t.version ≡ pos (suc e)
      → configuration_eq t other ≡ false
      → dispatch p subject now s other e ≡ err version_conflict
  unfolding replace_stored apply_decision
  refused now d other e t s k v differ =
      let g : replacement_decision e t.version (configuration_eq t other) ≡ conflicting =
        ap (λ w. replacement_decision e w (configuration_eq t other)) v
        ∙ ap (replacement_decision e (pos (suc e))) differ
        ∙ decision_of_stale e in
      rw (k.stored, k.read, g)

  -- No update is lost: after a request that expected version `e` was accepted and wrote version `e
  -- + 1`, every request that expects `e` too, passes validation and asks for a configuration other
  -- than the one returned fails with the version conflict. The URL parser obeys its laws.
  pub replace_settings-conflict :
      (laws : UrlLaws p) (now later : Time) (s : SettingsState)
      (first second : NotificationSettingsUpdate) (e : ℕ) (id id' : Text) {t : NotificationSettings}
      {s' : SettingsState} (other : ValidatedNotificationSettingsUpdate)
      → replace_settings p subject now s first e id ≡ ok (t, s')
      → t.version ≡ pos (suc e)
      → validate_request_id id' ≡ ok tt
      → validate_settings p second subject.id ≡ ok other
      → configuration_eq t other ≡ false
      → replace_settings p subject later s' second e id' ≡ err version_conflict
  replace_settings-conflict laws now later s first second e id id' {t} {s'} other h v good valid
        differ =
      let (d, _, settled, _) = replace_settings-IsSettled laws now s first e id h in
      dispatched later s' second other e id' good valid
      ∙ refused later d other e t s' settled v differ
