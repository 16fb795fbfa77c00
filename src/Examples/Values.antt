-- ===== src/Examples/Values.antt =====
-- Domain values on concrete inputs (src/domain, src/application/idempotency.rs).
use silicon_commit.Base.{
  ℕ, ◌≤◌, ◌≡◌, ◌↔◌, refl, sym, ap, true, false, ◌&&◌, List, [], ◌∷◌, none, some, ok, arith,
  list_beq, list_eq, nat_eq, nat_beq, if◌then◌else◌, ◌==◌, beq_refl, bool_eq, is_empty,
}
use silicon_commit.Text.{
  Text, chars, trim, trim_start, trim_end, is_whitespace, is_control, byte_len, utf8_width,
  starts_with,
}
use silicon_commit.Domain.Validation.{required_text, ensure_unique, observe}
use silicon_commit.Domain.Ids.{actor_id, normalize_public_id}
use silicon_commit.Domain.Actor.{silicon, actor_type_from_str, actor_type_as_str}
use silicon_commit.Domain.Actor.Laws.{actor_type_from_str_iff}
use silicon_commit.Domain.Todo.Status.{completed, blocked, status_beq, status_sort_key, status_eq}
use silicon_commit.Domain.Attachment.{
  attachment_url, from_persisted, has_userinfo, validate_raw_input, validate_url_components,
  raw_authority, after_scheme, authority, strip_prefix, max_attachment_url_bytes,
}
use silicon_commit.Domain.Attachment.Laws.{from_persisted-attachment_url}
use silicon_commit.Domain.Url.{has_host}
use silicon_commit.Domain.Notification.Rule.{
  NotificationRule, specific_statuses, new_rule, rule_from_persisted, check_scope, sort_statuses,
  insert_status, matches_update,
}
use silicon_commit.Domain.Notification.Rule.Laws.{
  rule_from_persisted-new_rule, matches_update-new_rule, selects,
}
use silicon_commit.Domain.Pagination.{PageCursor, CursorPayload, CursorCodec, encode, decode}
use silicon_commit.Domain.Pagination.Laws.{CodecLaws, decode_iff}
use silicon_commit.Application.Idempotency.Framing.{fingerprint_input-inj}
use silicon_commit.Examples.Hook.{hook, hook_parser, hook_laws}

title-accepted : required_text "title" (chars " Task ") 500 ≡ ok (chars "Task")
unfolding required_text trim trim_start trim_end is_whitespace
title-accepted = refl

id-accepted : actor_id (chars " c:ada ") ≡ ok (chars "c:ada")
unfolding actor_id normalize_public_id trim trim_start trim_end is_whitespace is_control
id-accepted = refl

actor_type_from_str_iff_example :
    (actor_type_from_str "silicon" ≡ ok silicon) ↔ ("silicon" ≡ actor_type_as_str silicon)
actor_type_from_str_iff_example = actor_type_from_str_iff "silicon" silicon

attachment-accepted : attachment_url hook_parser hook ≡ ok hook
unfolding attachment_url validate_raw_input validate_url_components has_userinfo raw_authority
    after_scheme authority strip_prefix byte_len utf8_width trim trim_start trim_end is_whitespace
    is_control list_beq starts_with
attachment-accepted = refl

from_persisted-attachment_url_example :
    (from_persisted hook_parser hook ≡ ok hook)
    × (byte_len hook ≤ max_attachment_url_bytes)
    × ((u : Unit {0}) × (hook_parser.parse hook ≡ some u)
        × (hook_parser.scheme u ≡ chars "https")
        × (has_host hook_parser u ≡ true)
        × (has_userinfo hook_parser u ≡ false))
from_persisted-attachment_url_example =
    from_persisted-attachment_url hook_parser hook_laws hook attachment-accepted

abbrev rule : NotificationRule
rule = record { scope = specific_statuses; statuses = completed ∷ blocked ∷ [] }

rule-accepted : new_rule "subscription" specific_statuses (blocked ∷ completed ∷ []) ≡ ok rule
unfolding new_rule check_scope ensure_unique observe sort_statuses insert_status status_sort_key
    status_beq
rule-accepted = refl

rule_from_persisted-new_rule_example :
    rule_from_persisted specific_statuses (completed ∷ blocked ∷ []) ≡ ok rule
rule_from_persisted-new_rule_example =
    rule_from_persisted-new_rule "subscription" specific_statuses (blocked ∷ completed ∷ [])
      rule-accepted

matches_update-new_rule_example :
    matches_update rule (some blocked)
    ≡ selects specific_statuses (blocked ∷ completed ∷ []) (some blocked)
matches_update-new_rule_example =
    matches_update-new_rule "subscription" specific_statuses (blocked ∷ completed ∷ [])
      (some blocked) rule-accepted

-- A codec that writes one payload.
abbrev payload : CursorPayload
payload = record { version = 1; created_at = 10; id = 7 }

abbrev codec : CursorCodec
codec = record {
  to_json = λ p.
      if nat_beq p.version 1 && nat_beq p.created_at 10 && nat_beq p.id 7
      then some (123 ∷ [])
      else none;
  from_json = λ b. if b == (123 ∷ []) then some payload else none;
  to_base64 = λ b. 65 ∷ b;
  from_base64 = λ t. elim t [ [] ↦ none | c ∷ b ↦ some b ];
}

same_payload : (p : CursorPayload) → p.version ≡ 1 → p.created_at ≡ 10 → p.id ≡ 7 → payload ≡ p
same_payload p v c i = rw (sym v, sym c, sym i) refl

only_payload :
    (p : CursorPayload) (bytes : List ℕ)
    → codec.to_json p ≡ some bytes
    → (bytes ≡ 123 ∷ []) × (p ≡ payload)
only_payload p bytes h =
    let e : p ≡ payload = sym (same_payload p (ground arith) (ground arith) (ground arith)) in
    (ground arith, e)

abbrev the_bytes : List ℕ
the_bytes = 123 ∷ []

codec_laws : CodecLaws codec
codec_laws = record {
  json = λ p bytes h.
      let (b, e) = only_payload p bytes h in rw (b, beq_refl the_bytes) (ap some (sym e));
  base64 = λ bytes. refl;
}

abbrev cursor : PageCursor
cursor = record { created_at = 10; id = 7 }

cursor-written : encode codec (record { created_at = 10; id = 7 }) ≡ ok (65 ∷ 123 ∷ [])
unfolding encode
cursor-written = refl

abbrev text : Text
text = 65 ∷ 123 ∷ []

decode_iff_example :
    (decode codec text ≡ ok cursor)
    ↔ ((encode codec cursor ≡ ok text) × (is_empty text ≡ false) × (byte_len text ≤ 1024))
decode_iff_example = decode_iff codec codec_laws text cursor

cursor-read : decode codec (65 ∷ 123 ∷ []) ≡ ok (record { created_at = 10; id = 7 })
unfolding decode byte_len utf8_width list_beq
cursor-read = refl

abbrev bytes : ℕ → List ℕ
bytes n = n ∷ []

fingerprint_input-inj_example : (bytes 1 ≡ bytes 1) × (bytes 2 ≡ bytes 2) × (bytes 3 ≡ bytes 3)
fingerprint_input-inj_example =
    fingerprint_input-inj (bytes 1) (bytes 2) (bytes 3) (bytes 1) (bytes 2) (bytes 3) (omega arith)
      (omega arith) (omega arith) (omega arith) (omega arith) (omega arith) refl
