-- ===== src/Domain/Url.antt =====
-- The `url` crate, which the program does not implement, as an interface: what the program reads of
-- a parsed URL, and the documented laws of its serialisation that proofs rely on.
use silicon_commit.Base.{ℕ, ◌<◌, ◌≡◌, Bool, true, false, ◌++◌, Option, none, some, is_empty, any}
use silicon_commit.Text.{Text, chars, trim, is_control}
use silicon_commit.Domain.Notification.Address.{Ipv4Addr}
use silicon_commit.Domain.Notification.Address.Blocks.{IsOctets}

-- `url::Host`; of an IPv6 address the first two segments are read.
pub data Host : Type 0 where
  domain : Text → Host
  ipv4 : Ipv4Addr → Host
  ipv6 : (segment0 segment1 : ℕ) → Host

pub record UrlParser : Type 1 where
  pub Url : Type 0
  pub parse : Text → Option Url
  pub as_str : Url → Text
  pub scheme : Url → Text
  pub host : Url → Option Host
  pub cannot_be_a_base : Url → Bool
  pub username : Url → Text
  pub has_password : Url → Bool
  pub has_query : Url → Bool
  pub has_fragment : Url → Bool
  -- A port that is written and is not the default port of the scheme.
  pub port : Url → Option ℕ

abbrev pub has_host : (p : UrlParser) → p.Url → Bool
has_host p url = elim (p.host url) [ none ↦ false | some _ ↦ true ]

-- The serialisation parses to the URL that it came from, is clean text, and begins with the scheme
-- and, where there is a host, with two slashes. The octets of an IPv4 address are bytes, and the
-- segments of an IPv6 address have sixteen bits.
pub record UrlLaws (p : UrlParser) : Type 1 where
  pub parse-as_str : (u : p.Url) → p.parse (p.as_str u) ≡ some u
  pub visible : (u : p.Url) → any is_control (p.as_str u) ≡ false
  pub trimmed : (u : p.Url) → trim (p.as_str u) ≡ p.as_str u
  pub filled : (u : p.Url) → is_empty (p.as_str u) ≡ false
  pub https :
      (u : p.Url)
      → p.scheme u ≡ chars "https"
      → has_host p u ≡ true
      → (rest : Text) × (p.as_str u ≡ chars "https://" ++ rest)
  pub octets : (u : p.Url) (x : Ipv4Addr) → p.host u ≡ some (ipv4 x) → IsOctets x
  pub segments :
      (u : p.Url) (s0 s1 : ℕ) → p.host u ≡ some (ipv6 s0 s1) → (s0 < 0x10000) × (s1 < 0x10000)
