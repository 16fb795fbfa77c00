-- ===== src/Domain/Attachment.antt =====
-- src/domain/attachment.rs: attachment URLs. The `url` crate is the parameter `UrlParser`.
pub mod Laws
use silicon_commit.Base.{
  ℕ, ◌≡◌, Bool, true, false, not, ◌||◌, List, [], ◌∷◌, Option, none, some, ltb, nat_beq, ◌==◌, ◌!=◌,
  any, is_empty, if◌then◌else◌, Result, ok, err, fail_if, ok_or, ◌>>=◌, ◌>>◌, list_eq, nat_eq,
}
use silicon_commit.Domain.Url.{UrlParser, has_host}
use silicon_commit.Text.{Text, chars, trim, byte_len, is_control, starts_with}

abbrev pub max_attachment_url_bytes : ℕ
max_attachment_url_bytes = 2048

pub data AttachmentUrlError : Type 0 where
  malformed non_canonical too_long control_characters whitespace : AttachmentUrlError
  not_https credentials fragment port : AttachmentUrlError

abbrev pub AttachmentUrl : Type 0
AttachmentUrl = Text

-- `value.split_once("://").map(|(_, suffix)| suffix)`
unfoldable pub after_scheme : Text → Option Text
after_scheme [] = none
after_scheme (c ∷ s) = elim (starts_with (c ∷ s) (chars "://")) [
  | true ↦ some (elim s [ [] ↦ [] | _ ∷ t ↦ elim t [ [] ↦ [] | _ ∷ u ↦ u ] ])
  | false ↦ after_scheme s
]

-- `suffix.split(['/', '?', '#']).next()`
unfoldable pub authority : Text → Text
authority [] = []
authority (c ∷ s) =
    let rest = authority s in
    if nat_beq c b'/' || nat_beq c b'?' || nat_beq c b'#' then [] else c ∷ rest

abbrev pub has_at : Text → Bool
has_at s = any (λ c. nat_beq c b'@') s

unfoldable pub raw_authority : Text → Option Text
unfolding after_scheme authority
raw_authority value = elim (after_scheme value) [
  | none ↦ none
  | some suffix ↦ some (authority suffix)
]

-- `option.is_some_and(|authority| authority.contains('@'))`
abbrev pub some_has_at : Option Text → Bool
some_has_at none = false
some_has_at (some a) = has_at a

-- `strip_prefix`
unfoldable pub strip_prefix : Text → Text → Option Text
strip_prefix s [] = some s
strip_prefix [] (d ∷ p) = none
strip_prefix (c ∷ s) (d ∷ p) = if nat_beq c d then strip_prefix s p else none

unfoldable pub validate_raw_input : Text → Result (Unit {0}) AttachmentUrlError
unfolding raw_authority
validate_raw_input value = do
  fail_if (ltb max_attachment_url_bytes (byte_len value)) too_long
  fail_if (any is_control value) control_characters
  fail_if (trim value != value) whitespace
  fail_if (some_has_at (raw_authority value)) credentials

module _ (p : UrlParser) where
  open p use {Url, parse, as_str, scheme, username, has_password, has_fragment}

  unfoldable pub has_userinfo : Url → Bool
  unfolding authority strip_prefix
  has_userinfo url = elim (strip_prefix (as_str url) (chars "https://")) [
    | none ↦ false
    | some suffix ↦ has_at (authority suffix)
  ]

  unfoldable pub validate_url_components : Url → Result (Unit {0}) AttachmentUrlError
  unfolding has_userinfo
  validate_url_components url = do
    fail_if (scheme url != chars "https" || not (has_host p url)) not_https
    fail_if (not (is_empty (username url)) || has_password url || has_userinfo url) credentials
    fail_if (has_fragment url) fragment
    fail_if (elim (p.port url) [ none ↦ false | some _ ↦ true ]) port

  -- `AttachmentUrl::new`
  unfoldable pub attachment_url : Text → Result AttachmentUrl AttachmentUrlError
  attachment_url value = do
    validate_raw_input value
    url ← ok_or (parse value) malformed
    validate_url_components url
    let serialized = as_str url
    fail_if (ltb max_attachment_url_bytes (byte_len serialized)) too_long
    ok serialized

  -- `AttachmentUrl::from_persisted`
  unfoldable pub from_persisted : Text → Result AttachmentUrl AttachmentUrlError
  from_persisted value = do
    attachment ← attachment_url value
    fail_if (attachment != value) non_canonical
    ok attachment
