-- ===== src/Domain/Notification/Version.antt =====
-- Resource versions of notification settings and subscriptions. An `i64` is an integer, a `u64` a
-- number.
use silicon_commit.Base.{
  ℕ, Bool, false, ltb, if◌then◌else◌, Result, ok, err, ℤ, pos, is_negative, ◌==◌, int_eq,
}

-- `i64::MAX`
abbrev pub i64_max : ℕ
i64_max = 9223372036854775807

abbrev pub NotificationVersion : Type 0
NotificationVersion = ℤ

pub data NotificationVersionError : Type 0 where
  out_of_range : NotificationVersionError

-- `NotificationVersion::new`
unfoldable pub notification_version : ℤ → Result NotificationVersion NotificationVersionError
notification_version value = if is_negative value then err out_of_range else ok value

abbrev pub ExpectedNotificationVersion : Type 0
ExpectedNotificationVersion = ℕ

pub data ExpectedNotificationVersionError : Type 0 where
  expected_out_of_range : ExpectedNotificationVersionError

-- `ExpectedNotificationVersion::new`
unfoldable pub expected_version :
    ℕ → Result ExpectedNotificationVersion ExpectedNotificationVersionError
expected_version value = if ltb i64_max value then err expected_out_of_range else ok value

-- `i64::try_from(value).is_ok_and(test)`
abbrev pub as_i64_and : ℕ → (ℤ → Bool) → Bool
as_i64_and value test = if ltb i64_max value then false else test (pos value)

-- `ExpectedNotificationVersion::matches`
unfoldable pub matches : ExpectedNotificationVersion → NotificationVersion → Bool
matches expected current = as_i64_and expected (λ e. e == current)
