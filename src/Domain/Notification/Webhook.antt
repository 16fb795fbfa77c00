-- ===== src/Domain/Notification/Webhook.antt =====
-- Webhook destinations: `WebhookUrl` and `validate_webhook_url` of src/domain/notification.rs.
pub mod Laws
use silicon_commit.Base.{
  ℕ, Bool, true, false, not, ◌&&◌, ◌||◌, List, [], ◌∷◌, Option, none, some, String, ltb, nat_beq,
  ◌==◌, ◌!=◌, any, is_empty, if◌then◌else◌, Result, ok, err, fail_if, ok_or, map_err, ◌>>=◌, ◌>>◌,
  list_eq, nat_eq,
}
use silicon_commit.Text.{
  Text, chars, trim, byte_len, is_control, eq_ignore_ascii_case, to_ascii_lowercase,
}
use silicon_commit.Domain.Ids.{ActorId}
use silicon_commit.Domain.Url.{UrlParser, Host, domain, ipv4, ipv6, has_host}
use silicon_commit.Domain.Validation.{Validated, validation_error, invalid}
use silicon_commit.Domain.Notification.Address.{is_public_ipv4, is_public_ipv6}

abbrev pub max_webhook_url_bytes : ℕ
max_webhook_url_bytes = 2048

abbrev pub WebhookUrl : Type 0
WebhookUrl = Text

-- `str::trim_end_matches('.')`
unfoldable pub trim_end_dots : Text → Text
trim_end_dots [] = []
trim_end_dots (c ∷ s) =
    let rest = trim_end_dots s in if is_empty rest && nat_beq c b'.' then [] else c ∷ rest

-- `str::ends_with`
unfoldable pub ends_with : Text → Text → Bool
ends_with [] suffix = is_empty suffix
ends_with (c ∷ s) suffix = (c ∷ s) == suffix || ends_with s suffix

-- The `match host` of `validate_webhook_url`
unfoldable pub check_host : Host → Result (Unit {0}) String
check_host (domain d) =
    let name = trim_end_dots d in
    fail_if
      (eq_ignore_ascii_case name (chars "localhost")
        || ends_with (to_ascii_lowercase name) (chars ".localhost"))
      "must not target localhost"
check_host (ipv4 address) =
    fail_if (not (is_public_ipv4 address)) "literal IP addresses must be publicly routable"
check_host (ipv6 segment0 segment1) =
    fail_if (not (is_public_ipv6 segment0 segment1))
      "literal IP addresses must be publicly routable"

-- `url.port().is_some_and(|port| port != 443)`
abbrev pub other_port : Option ℕ → Bool
other_port none = false
other_port (some n) = not (nat_beq n 443)

-- The two checks of the text before it is parsed
unfoldable pub check_raw : Text → Result (Unit {0}) String
check_raw value = do
  fail_if (is_empty value || ltb max_webhook_url_bytes (byte_len value))
      "must contain between 1 and 2048 bytes"
  fail_if (trim value != value || any is_control value)
      "must not contain surrounding whitespace or control characters"

module _ (p : UrlParser) where
  open p use {
    Url, parse, as_str, scheme, host, cannot_be_a_base, username, has_password, has_query,
    has_fragment,
  }

  -- The checks of the parsed parts, up to the host
  unfoldable pub check_parts : Url → Result Host String
  check_parts url = do
    fail_if (scheme url != chars "https" || cannot_be_a_base url || not (has_host p url))
        "must be an absolute HTTPS URL with a host"
    fail_if (not (is_empty (username url)) || has_password url) "must not contain user information"
    fail_if (has_query url || has_fragment url) "must not contain a query or fragment"
    fail_if (other_port (p.port url)) "must not use a non-default port"
    ok_or (host url) "must be an absolute HTTPS URL with a host"

  unfoldable pub validate_webhook_url : Text → ActorId → Result WebhookUrl String
  validate_webhook_url value _represented_actor_id = do
    check_raw value
    url ← ok_or (parse value) "must be an absolute HTTPS URL"
    found ← check_parts url
    check_host found
    let canonical = as_str url
    fail_if (ltb max_webhook_url_bytes (byte_len canonical))
        "canonical URL must be at most 2048 bytes"
    ok canonical

  -- `WebhookUrl::new`
  unfoldable pub webhook_url : Text → ActorId → Validated WebhookUrl
  webhook_url value represented_actor_id =
      map_err (λ message. validation_error "webhook_url" (invalid message))
        (validate_webhook_url value represented_actor_id)

  -- `WebhookUrl::from_persisted`
  unfoldable pub webhook_from_persisted : Text → ActorId → Validated WebhookUrl
  webhook_from_persisted value represented_actor_id = do
    validated ← webhook_url value represented_actor_id
    fail_if (validated != value)
        (validation_error "webhook_url" (invalid "persisted webhook URL is not canonical"))
    ok validated
