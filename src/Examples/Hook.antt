-- ===== src/Examples/Hook.antt =====
-- A parser that knows one URL, for runs that need one.
use silicon_commit.Base.{
  ◌≡◌, refl, false, Option, none, some, if◌then◌else◌, ◌==◌, list_eq, nat_eq, beq_refl, any,
}
use silicon_commit.Text.{Text, chars, trim, trim_start, trim_end, is_whitespace, is_control}
use silicon_commit.Domain.Url.{UrlParser, UrlLaws, domain}

abbrev pub hook : Text
hook = chars "https://hook.example.com/a"

abbrev parse_hook : Text → Option (Unit {0})
parse_hook t = if t == hook then some tt else none

abbrev pub hook_parser : UrlParser
hook_parser = record {
  Url = Unit {0};
  parse = parse_hook;
  as_str = λ _. hook;
  scheme = λ _. chars "https";
  host = λ _. some (domain (chars "hook.example.com"));
  cannot_be_a_base = λ _. false;
  username = λ _. chars "";
  has_password = λ _. false;
  has_query = λ _. false;
  has_fragment = λ _. false;
  port = λ _. none;
}

hook-trimmed : trim hook ≡ hook
unfolding trim trim_start trim_end is_whitespace
hook-trimmed = refl

hook-visible : any is_control hook ≡ false
unfolding is_control
hook-visible = refl

hook-parsed : parse_hook hook ≡ some tt
hook-parsed = rw (beq_refl hook) refl

pub hook_laws : UrlLaws hook_parser
hook_laws = record {
  parse-as_str = λ u. hook-parsed;
  visible = λ u. hook-visible;
  trimmed = λ u. hook-trimmed;
  filled = λ u. refl;
  https = λ u s h. (chars "hook.example.com/a", refl);
  octets = λ u x h. absurd (cc h);
  segments = λ u s0 s1 h. absurd (cc h);
}
