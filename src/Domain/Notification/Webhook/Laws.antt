-- ===== src/Domain/Notification/Webhook/Laws.antt =====
-- An accepted webhook destination is public, canonical, and read back unchanged.
use silicon_commit.Base.{
  ℕ, ◌<◌, ◌*◌, ◌+◌, [], ◌∷◌, Bool, not, ◌&&◌, sym, ◌∙◌, nat_beq, leb, ◌≤◌, ◌≡◌, true, false, some,
  ltb, any, is_empty, Result, ok, fail_if, ◌>>=◌, ◌>>◌, arith, list_eq, nat_eq, list_beq_iff,
  String, bind-ok,
}
use silicon_commit.Text.{
  Text, chars, trim, byte_len, is_control, eq_ignore_ascii_case, to_ascii_lowercase,
}
use silicon_commit.Domain.Ids.{ActorId}
use silicon_commit.Domain.Url.{UrlParser, UrlLaws, Host, domain, ipv4, ipv6}
use silicon_commit.Domain.Notification.Address.{Ipv4Addr, is_public_ipv4, is_public_ipv6}
use silicon_commit.Domain.Notification.Address.Blocks.{
  in_block, special_blocks, is_public_ipv4_iff, is_public_ipv6_iff,
}
use silicon_commit.Domain.Notification.Webhook.{
  max_webhook_url_bytes, WebhookUrl, trim_end_dots, ends_with, check_host, check_raw, check_parts,
  validate_webhook_url, webhook_url, webhook_from_persisted,
}

-- A host that a webhook may name: no name of the local machine, no address of the special IPv4
-- blocks, and of IPv6 an address of 2000::/3 outside four blocks of 32 bits.
abbrev pub IsPublicHost : Host → Type 0
IsPublicHost (domain d) =
    (eq_ignore_ascii_case (trim_end_dots d) (chars "localhost") ≡ false)
    × (ends_with (to_ascii_lowercase (trim_end_dots d)) (chars ".localhost") ≡ false)
IsPublicHost (ipv4 x) = any (in_block x) special_blocks ≡ false
IsPublicHost (ipv6 s0 s1) =
    (0x2000 ≤ s0)
    × (s0 < 0x4000)
    × (any (nat_beq (s0 * 0x10000 + s1)) (0x20010db8 ∷ 0x20010002 ∷ 0x20010010 ∷ 0x20010020 ∷ [])
        ≡ false)

outside : (b : Bool) → not b ≡ true → b ≡ false
outside b h = ground arith

module _ (p : UrlParser) (laws : UrlLaws p) where
  open p use {Url, parse, as_str, scheme, host}

  -- What follows the checks of the parts.
  abbrev finish : Url → Host → Result WebhookUrl String
  finish u h = do
    check_host h
    fail_if (ltb max_webhook_url_bytes (byte_len (as_str u)))
        "canonical URL must be at most 2048 bytes"
    ok (as_str u)

  parse_step :
      (v : Text) (a : ActorId) {t : WebhookUrl}
      → webhook_url p v a ≡ ok t
      → (u : Url) × (parse v ≡ some u) × ((check_parts p u >>= finish u) ≡ ok t)
  unfolding webhook_url validate_webhook_url
  parse_step v a h = ground arith

  webhook_steps :
      (v : Text) (a : ActorId) {t : WebhookUrl}
      → webhook_url p v a ≡ ok t
      → (u : Url) × (h : Host) × (parse v ≡ some u)
        × (check_parts p u ≡ ok h)
        × (check_host h ≡ ok tt)
        × (byte_len (as_str u) ≤ max_webhook_url_bytes)
        × (as_str u ≡ t)
  webhook_steps v a {t} e =
      let (u, parsed, later) = parse_step v a e in
      let (h, parts, last) = bind-ok (check_parts p u) (finish u) later in
      (u, h, parsed, parts, ground arith, ground arith, ground arith)

  accepted_v4 : (x : Ipv4Addr) → check_host (ipv4 x) ≡ ok tt → is_public_ipv4 x ≡ true
  unfolding check_host
  accepted_v4 x e = ground arith

  accepted_v6 : (s0 s1 : ℕ) → check_host (ipv6 s0 s1) ≡ ok tt → is_public_ipv6 s0 s1 ≡ true
  unfolding check_host
  accepted_v6 s0 s1 e = ground arith

  accepted_domain : (d : Text) → check_host (domain d) ≡ ok tt → IsPublicHost (domain d)
  unfolding check_host
  accepted_domain d e = ground arith

  global_unicast : (a b c : Bool) → (a && b && c) ≡ true → (a ≡ true) × (b ≡ true) × (c ≡ true)
  global_unicast a b c h = ground arith

  check_host-IsPublicHost :
      (u : Url) (h : Host) → host u ≡ some h → check_host h ≡ ok tt → IsPublicHost h
  check_host-IsPublicHost u (domain d) k e = accepted_domain d e
  check_host-IsPublicHost u (ipv4 x) k e =
      outside (any (in_block x) special_blocks)
        (sym (is_public_ipv4_iff x (laws.octets u x k)) ∙ accepted_v4 x e)
  check_host-IsPublicHost u (ipv6 s0 s1) k e =
      let (small, small') = laws.segments u s0 s1 k in
      let (low, high, away) =
        global_unicast (leb 0x2000 s0) (ltb s0 0x4000)
          (not (
            any (nat_beq (s0 * 0x10000 + s1))
              (0x20010db8 ∷ 0x20010002 ∷ 0x20010010 ∷ 0x20010020 ∷ [])))
          (sym (is_public_ipv6_iff s0 s1 small small') ∙ accepted_v6 s0 s1 e) in
      (
        ground (arith, low),
        ground (arith, high),
        outside
            (any (nat_beq (s0 * 0x10000 + s1))
              (0x20010db8 ∷ 0x20010002 ∷ 0x20010010 ∷ 0x20010020 ∷ []))
            away,
      )

  parts_steps :
      (u : Url) {h : Host}
      → check_parts p u ≡ ok h
      → (scheme u ≡ chars "https")
        × (host u ≡ some h)
        × (p.has_query u ≡ false)
        × (p.has_fragment u ≡ false)
  unfolding check_parts
  parts_steps u e = ground (arith, list_beq_iff (scheme u) (chars "https"))

  raw_of_canonical :
      (t : Text)
      → is_empty t ≡ false
      → byte_len t ≤ max_webhook_url_bytes
      → trim t ≡ t
      → any is_control t ≡ false
      → check_raw t ≡ ok tt
  unfolding check_raw
  raw_of_canonical t filled fits trimmed visible = ground (arith, list_beq_iff (trim t) t)

  persisted_of_canonical :
      (t : Text) (a : ActorId) (u : Url) (h : Host)
      → check_raw t ≡ ok tt
      → parse t ≡ some u
      → check_parts p u ≡ ok h
      → check_host h ≡ ok tt
      → byte_len t ≤ max_webhook_url_bytes
      → as_str u ≡ t
      → webhook_from_persisted p t a ≡ ok t
  unfolding webhook_from_persisted webhook_url validate_webhook_url
  persisted_of_canonical t a u h raw parsed parts hosted fits same =
      ground (arith, list_beq_iff (as_str u) t)

  -- An accepted webhook destination is an HTTPS URL without query and fragment whose host is not a
  -- name of the local machine, and if it is a literal address, it is an IPv4 address in none of the
  -- listed special blocks, or an IPv6 address within 2000::/3 and outside 2001:db8::/32,
  -- 2001:2::/32, 2001:10::/32 and 2001:20::/32; its stored text is read back unchanged for every
  -- account. The URL parser obeys its laws.
  pub webhook_from_persisted-webhook_url :
      (v : Text) (a b : ActorId) {t : WebhookUrl}
      → webhook_url p v a ≡ ok t
      → (webhook_from_persisted p t b ≡ ok t)
        × ((u : Url) × (h : Host) × (parse t ≡ some u)
            × (scheme u ≡ chars "https")
            × (host u ≡ some h)
            × IsPublicHost h
            × (p.has_query u ≡ false)
            × (p.has_fragment u ≡ false))
  webhook_from_persisted-webhook_url v a b {t} e =
      let (u, h, parsed, parts, hosted, fits, same) = webhook_steps v a e in
      let (https, found, no_query, no_fragment) = parts_steps u parts in
      let again : parse t ≡ some u = rw (← same) (laws.parse-as_str u) in
      let raw : check_raw t ≡ ok tt =
        rw (← same)
          (raw_of_canonical (as_str u) (laws.filled u) fits (laws.trimmed u) (laws.visible u)) in
      let short : byte_len t ≤ max_webhook_url_bytes = rw (← same) fits in
      (
        persisted_of_canonical t b u h raw again parts hosted short same,
        (
          u,
          h,
          again,
          https,
          found,
          check_host-IsPublicHost u h found hosted,
          no_query,
          no_fragment,
        ),
      )
