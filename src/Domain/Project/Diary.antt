-- ===== src/Domain/Project/Diary.antt =====
-- Diary versions and replacements (src/domain/project.rs). An `i64` is an integer, a `u64` a number.
use silicon_commit.Base.{
  ℕ, ◌+◌, Bool, ltb, nat_beq, if◌then◌else◌, Result, ok, err, ◌>>=◌, ok_or, ℤ, pos, negsuc,
  is_negative, ◌==◌, int_eq, ◌||◌, Option, some, none, zero, suc,
}
use silicon_commit.Text.{Text}
use silicon_commit.Domain.Actor.{Actor}
use silicon_commit.Domain.Ids.{ProjectId}
use silicon_commit.Domain.Todo.{Time}
use silicon_commit.Domain.Notification.Version.{i64_max, as_i64_and}
use silicon_commit.Domain.Validation.{Validated, validate_diary_markdown}

abbrev pub DiaryVersion : Type 0
DiaryVersion = ℤ

pub data DiaryVersionError : Type 0 where
  out_of_range overflow : DiaryVersionError

-- `DiaryVersion::new`
unfoldable pub diary_version : ℤ → Result DiaryVersion DiaryVersionError
diary_version value = if is_negative value || value == pos 0 then err out_of_range else ok value

-- `i64::checked_add(1)`
abbrev pub checked_add_one : ℤ → Option ℤ
checked_add_one (pos n) = if ltb n i64_max then some (pos (n + 1)) else none
checked_add_one (negsuc zero) = some (pos 0)
checked_add_one (negsuc (suc n)) = some (negsuc n)

-- `DiaryVersion::next`
unfoldable pub next_version : DiaryVersion → Result DiaryVersion DiaryVersionError
unfolding diary_version
next_version v = ok_or (checked_add_one v) overflow >>= diary_version

abbrev pub ExpectedDiaryVersion : Type 0
ExpectedDiaryVersion = ℕ

pub data ExpectedDiaryVersionError : Type 0 where
  expected_diary_version_error : ExpectedDiaryVersionError

-- `ExpectedDiaryVersion::new`
unfoldable pub expected_diary_version : ℕ → Result ExpectedDiaryVersion ExpectedDiaryVersionError
expected_diary_version value =
    if nat_beq value 0 then err expected_diary_version_error else ok value

-- `ExpectedDiaryVersion::matches`
unfoldable pub diary_matches : ExpectedDiaryVersion → DiaryVersion → Bool
diary_matches expected current = as_i64_and expected (λ e. e == current)

pub record Diary : Type 0 where
  pub project_id : ProjectId
  pub markdown : Text
  pub version : DiaryVersion
  pub updated_by : Actor
  pub updated_at : Time

pub record ValidatedDiaryUpdate : Type 0 where
  pub markdown : Text
  pub word_count : ℕ

-- `DiaryUpdate::validate`; the request is its text, and words are counted by the parameter.
unfoldable pub validate_diary : (Text → ℕ) → Text → Validated ValidatedDiaryUpdate
validate_diary unicode_word_count markdown = do
  word_count ← validate_diary_markdown unicode_word_count markdown
  ok (record { markdown = markdown; word_count = word_count })
