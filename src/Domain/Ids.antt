-- ===== src/Domain/Ids.antt =====
-- src/domain/ids.rs: account uuids and public account ids. Resource ids (`TodoId`, `ProjectId`, …)
-- are 128-bit numbers, as their `Uuid` is.
pub mod Laws
use silicon_commit.Base.{
  ℕ, Bool, ◌||◌, List, [], ◌∷◌, ltb, is_empty, any, length, Result, ok, err, fail_if, ◌>>=◌, ◌>>◌,
}
use silicon_commit.Text.{Text, chars, trim, byte_len, is_control, is_whitespace, starts_with}

abbrev pub Uuid : Type 0
Uuid = ℕ

abbrev pub TodoId : Type 0
TodoId = Uuid

abbrev pub ProjectId : Type 0
ProjectId = Uuid

abbrev pub ProjectTaskId : Type 0
ProjectTaskId = Uuid

abbrev pub ProjectEntryId : Type 0
ProjectEntryId = Uuid

abbrev pub max_public_id_chars : ℕ
max_public_id_chars = 255

abbrev pub max_account_uuid_bytes : ℕ
max_account_uuid_bytes = 160

pub data PublicIdError : Type 0 where
  empty too_long control_character : PublicIdError

abbrev pub AccountUuid : Type 0
AccountUuid = Text

abbrev pub ActorId : Type 0
ActorId = Text

pub data AccountUuidError : Type 0 where
  empty too_long invalid_character : AccountUuidError

-- `AccountUuid::new`
unfoldable pub account_uuid : Text → Result AccountUuid AccountUuidError
account_uuid value = do
  fail_if (is_empty value) AccountUuidError.empty
  fail_if (ltb max_account_uuid_bytes (byte_len value)) AccountUuidError.too_long
  fail_if (any (λ character. is_whitespace character || is_control character) value)
      AccountUuidError.invalid_character
  ok value

-- `AccountUuid::is_placeholder`
unfoldable pub is_placeholder : AccountUuid → Bool
is_placeholder uuid = starts_with uuid (chars "iam:")

unfoldable pub normalize_public_id : Text → Result Text PublicIdError
normalize_public_id value = do
  fail_if (ltb max_public_id_chars (length value)) PublicIdError.too_long
  let normalized = trim value
  fail_if (is_empty normalized) PublicIdError.empty
  fail_if (any is_control normalized) PublicIdError.control_character
  ok normalized

-- `ActorId::new`
unfoldable pub actor_id : Text → Result ActorId PublicIdError
unfolding normalize_public_id
actor_id = normalize_public_id
