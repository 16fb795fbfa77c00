-- ===== src/Domain/Project/Uid.antt =====
-- `ProjectUid` and `ProjectLocator` of src/domain/project.rs. A creation time is a number of
-- nanoseconds; `Uuid::parse_str` is the parameter `parse_uuid`.
pub mod Laws
use silicon_commit.Base.{
  ℕ, ◌*◌, ◌/◌, ◌+◌, Bool, not, ◌||◌, [], ◌∷◌, ◌++◌, Option, none, some, Result, ok, err, fail_if,
  ok_or, map_err, ◌>>=◌, ◌>>◌, ltb, is_empty, any, ◌==◌, ◌!=◌, list_eq, nat_eq, ℤ, pos, negsuc,
}
use silicon_commit.Text.{Text, byte_len, split_once, rsplit_once, is_control}
use silicon_commit.Text.Decimal.{int_to_string, parse_i128}
use silicon_commit.Domain.Ids.{ActorId, ProjectId, Uuid}
use silicon_commit.Domain.Project.Slug.{ProjectSlug, project_slug}

abbrev pub max_project_uid_bytes : ℕ
max_project_uid_bytes = 2048

abbrev pub ProjectUid : Type 0
ProjectUid = Text

pub data ProjectUidError : Type 0 where
  too_long malformed : ProjectUidError

-- `nanoseconds.div_euclid(1_000_000)`
abbrev pub unix_millis : ℤ → ℤ
unix_millis (pos n) = pos (n / 1000000)
unix_millis (negsuc n) = negsuc (n / 1000000)

-- `ProjectUid::new`
unfoldable pub new_uid : ProjectSlug → ActorId → ℤ → ProjectUid
new_uid slug creator_id created_at =
    (slug ++ b':' ∷ creator_id) ++ b':' ∷ int_to_string (unix_millis created_at)

-- `value.rsplit_once(':').map_or("", |(_, value)| value)`
abbrev pub after_last : Option (Text × Text) → Text
after_last none = []
after_last (some parts) = parts.1

-- `ProjectUid::from_str`
unfoldable pub project_uid : Text → Result ProjectUid ProjectUidError
project_uid value = do
  fail_if (ltb max_project_uid_bytes (byte_len value)) too_long
  outer ← ok_or (rsplit_once b':' value) malformed
  inner ← ok_or (split_once b':' outer.0) malformed
  fail_if (is_empty inner.1 || any is_control inner.1) malformed
  slug ← map_err (λ _. malformed) (project_slug inner.0)
  millis ← ok_or (parse_i128 outer.1) malformed
  fail_if (int_to_string millis != after_last (rsplit_once b':' value)) malformed
  ok value

pub data ProjectLocator : Type 0 where
  id : ProjectId → ProjectLocator
  uid : ProjectUid → ProjectLocator

-- `ProjectLocator::from_str`
unfoldable pub project_locator : (Text → Option Uuid) → Text → Result ProjectLocator ProjectUidError
project_locator parse_uuid value = elim (parse_uuid value) [
  | some found ↦ ok (id found)
  | none ↦ project_uid value >>= λ parsed. ok (uid parsed)
]
