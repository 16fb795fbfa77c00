-- ===== src/Domain/Attachment/Laws.antt =====
-- A stored attachment URL is canonical: reading it back accepts it unchanged
-- (src/domain/attachment.rs).
use silicon_commit.Base.{
  ◌≤◌, ◌≡◌, refl, ap, ◌∙◌, true, false, ◌++◌, some, any, ok, arith, list_eq, nat_eq, list_beq_iff,
}
use silicon_commit.Text.{Text, chars, trim, byte_len, is_control, starts_with}
use silicon_commit.Domain.Url.{UrlParser, UrlLaws, has_host}
use silicon_commit.Domain.Attachment.{
  AttachmentUrl, max_attachment_url_bytes, authority, raw_authority, strip_prefix, some_has_at,
  validate_raw_input, has_userinfo, validate_url_components, attachment_url, from_persisted,
}

-- After `https://` both readings of the authority are of the same text.
same_authority :
    (rest : Text)
    → (raw_authority (chars "https://" ++ rest) ≡ some (authority rest))
      × (strip_prefix (chars "https://" ++ rest) (chars "https://") ≡ some rest)
unfolding raw_authority strip_prefix starts_with
same_authority rest = (refl, refl)

module _ (p : UrlParser) (laws : UrlLaws p) where
  open p use {Url, parse, as_str, scheme}

  -- What `AttachmentUrl::new` has checked of the URL that it parsed.
  attachment_steps :
      (v : Text) {t : AttachmentUrl}
      → attachment_url p v ≡ ok t
      → (u : Url) × (parse v ≡ some u)
        × (validate_url_components p u ≡ ok tt)
        × (byte_len (as_str u) ≤ max_attachment_url_bytes)
        × (as_str u ≡ t)
  unfolding attachment_url
  attachment_steps v {t} h = ground arith

  component_steps :
      (u : Url)
      → validate_url_components p u ≡ ok tt
      → (scheme u ≡ chars "https") × (has_host p u ≡ true) × (has_userinfo p u ≡ false)
  unfolding validate_url_components
  component_steps u h = ground (arith, list_beq_iff (scheme u) (chars "https"))

  -- The serialisation of an accepted URL has no user information before its path.
  no_at :
      (u : Url)
      → validate_url_components p u ≡ ok tt
      → some_has_at (raw_authority (as_str u)) ≡ false
  unfolding has_userinfo
  no_at u h =
      let (https, hosted, plain) = component_steps u h in
      let (rest, e) = laws.https u https hosted in
      let (raw, _) = same_authority rest in rw (e, raw) (rw e at plain)

  raw_ok :
      (t : Text)
      → byte_len t ≤ max_attachment_url_bytes
      → any is_control t ≡ false
      → trim t ≡ t
      → some_has_at (raw_authority t) ≡ false
      → validate_raw_input t ≡ ok tt
  unfolding validate_raw_input
  raw_ok t fits visible trimmed plain = ground (arith, list_beq_iff (trim t) t)

  attachment_url_of_canonical :
      (t : Text) (u : Url)
      → validate_raw_input t ≡ ok tt
      → parse t ≡ some u
      → validate_url_components p u ≡ ok tt
      → byte_len (as_str u) ≤ max_attachment_url_bytes
      → attachment_url p t ≡ ok (as_str u)
  unfolding attachment_url
  attachment_url_of_canonical t u raw parsed good fits = ground arith

  persisted_of_canonical : (t : Text) → attachment_url p t ≡ ok t → from_persisted p t ≡ ok t
  unfolding from_persisted
  persisted_of_canonical t h = ground (arith, list_beq_iff t t)

  -- An accepted attachment URL is read back unchanged from its stored text, takes at most 2048
  -- bytes, and is an HTTPS URL with a host and without user information. The URL parser obeys its
  -- laws.
  pub from_persisted-attachment_url :
      (v : Text) {t : AttachmentUrl}
      → attachment_url p v ≡ ok t
      → (from_persisted p t ≡ ok t)
        × (byte_len t ≤ max_attachment_url_bytes)
        × ((u : Url) × (parse t ≡ some u)
            × (scheme u ≡ chars "https")
            × (has_host p u ≡ true)
            × (has_userinfo p u ≡ false))
  from_persisted-attachment_url v {t} h =
      let (u, parsed, good, fits, same) = attachment_steps v h in
      let (https, hosted, plain) = component_steps u good in
      let again : parse t ≡ some u = rw (← same) (laws.parse-as_str u) in
      let raw : validate_raw_input t ≡ ok tt =
        rw (← same) (raw_ok (as_str u) fits (laws.visible u) (laws.trimmed u) (no_at u good)) in
      (
        persisted_of_canonical t (attachment_url_of_canonical t u raw again good fits ∙ ap ok same),
        rw (← same) fits,
        (u, again, https, hosted, plain),
      )
