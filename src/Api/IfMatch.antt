-- ===== src/Api/IfMatch.antt =====
-- The `If-Match` header and the entity tags of src/api/extract.rs, src/api/projects.rs and
-- src/api/notifications.rs. A header's values are given by their texts, `none` for one that is not
-- visible ASCII.
pub mod Laws
use silicon_commit.Base.{
  ℕ, ◌+◌, ◌-◌, ◌^◌, Bool, true, false, not, ◌&&◌, ◌||◌, List, [], ◌∷◌, ◌++◌, Option, none, some, ok,
  err, leb, nat_beq, if◌then◌else◌, ◌==◌, list_eq, nat_eq, all, fail_if, ok_or, map_err, ◌>>=◌,
  ◌>>◌, ℤ,
}
use silicon_commit.Text.{Text, chars, starts_with}
use silicon_commit.Text.Decimal.{is_ascii_digit, int_to_string, parse_magnitude}
use silicon_commit.Domain.Attachment.{strip_prefix}
use silicon_commit.Domain.Project.Diary.{ExpectedDiaryVersion, expected_diary_version}
use silicon_commit.Domain.Notification.Version.{ExpectedNotificationVersion, expected_version}
use silicon_commit.Error.{AppError, bad_request, precondition_required, Fallible}

abbrev pub invalid_if_match : AppError
invalid_if_match = bad_request "invalid_if_match"

-- `unique_if_match`, on the values of the header
unfoldable pub unique_if_match : List (Option Text) → Fallible Text
unique_if_match [] = err precondition_required
unique_if_match (raw ∷ []) = ok_or raw invalid_if_match
unique_if_match (raw ∷ other ∷ values) = err invalid_if_match

-- `strip_suffix` of one character
unfoldable pub strip_last : ℕ → Text → Option Text
strip_last q [] = none
strip_last q (c ∷ []) = if nat_beq c q then some [] else none
strip_last q (c ∷ d ∷ s) = elim (strip_last q (d ∷ s)) [ none ↦ none | some t ↦ some (c ∷ t) ]

abbrev pub quoted : Option Text → Option Text
quoted none = none
quoted (some value) = strip_last b'"' value

-- `str::parse::<u64>`
unfoldable pub parse_u64 : Text → Option ℕ
parse_u64 [] = none
parse_u64 (c ∷ s) =
    if nat_beq c b'+' then parse_magnitude (2 ^ 64 - 1) s else parse_magnitude (2 ^ 64 - 1) (c ∷ s)

-- `positive` of `parse_strong_integer_etag`
unfoldable pub is_positive : Text → Bool
is_positive [] = false
is_positive (c ∷ rest) = leb b'1' c && leb c b'9' && all is_ascii_digit rest

unfoldable pub parse_strong_integer_etag : Text → Bool → Fallible ℕ
unfolding strip_last is_positive parse_u64
parse_strong_integer_etag raw allow_zero = do
  fail_if (starts_with raw (chars "W/") || raw == chars "*") invalid_if_match
  value ← ok_or (quoted (strip_prefix raw (chars "\""))) invalid_if_match
  fail_if (not (is_positive value || (allow_zero && value == chars "0"))) invalid_if_match
  ok_or (parse_u64 value) invalid_if_match

unfoldable pub parse_notification_if_match : Text → Fallible ExpectedNotificationVersion
parse_notification_if_match raw = do
  version ← parse_strong_integer_etag raw true
  map_err (λ _. invalid_if_match) (expected_version version)

unfoldable pub parse_if_match : Text → Fallible ExpectedDiaryVersion
parse_if_match raw = do
  version ← parse_strong_integer_etag raw false
  map_err (λ _. invalid_if_match) (expected_diary_version version)

-- The entity tag of a version: `format!("\"{}\"", version)`
unfoldable pub etag : ℤ → Text
etag version = b'"' ∷ int_to_string version ++ b'"' ∷ []
