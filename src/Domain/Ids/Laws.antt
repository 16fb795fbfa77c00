-- ===== src/Domain/Ids/Laws.antt =====
-- Account uuids are kept exactly; public ids are normalised once (src/domain/ids.rs).
use silicon_commit.Base.{◌≤◌, ◌≡◌, ◌↔◌, ap, sym, ◌∙◌, false, ◌||◌, is_empty, any, length, ok, arith}
use silicon_commit.Text.{Text, trim, byte_len, is_control, is_whitespace}
use silicon_commit.Text.Laws.{length-trim, trim_idem}
use silicon_commit.Domain.Ids.{
  ActorId, actor_id, account_uuid, max_public_id_chars, max_account_uuid_bytes,
}

-- An account uuid is accepted exactly when it is not empty, takes at most 160 bytes, and holds no
-- whitespace and no control character; and it is then kept as it is.
pub account_uuid_iff :
    (v t : Text)
    → (account_uuid v ≡ ok t) ↔ (
        (v ≡ t)
        × (is_empty v ≡ false)
        × (byte_len v ≤ max_account_uuid_bytes)
        × (any (λ c. is_whitespace c || is_control c) v ≡ false))
unfolding account_uuid
account_uuid_iff v t = ground arith

-- The normal form of a public id.
pub record IsPublicId (t : Text) : Type 0 where
  pub bounded : length t ≤ max_public_id_chars
  pub trimmed : trim t ≡ t
  pub filled : is_empty t ≡ false
  pub visible : any is_control t ≡ false

actor_id-ok :
    (v : Text) {t : ActorId}
    → actor_id v ≡ ok t
    → (length v ≤ max_public_id_chars)
      × (trim v ≡ t)
      × (is_empty t ≡ false)
      × (any is_control t ≡ false)
unfolding actor_id
actor_id-ok v h = ground arith

actor_id_of_IsPublicId : (t : Text) → IsPublicId t → actor_id t ≡ ok t
unfolding actor_id
actor_id_of_IsPublicId t n = ground arith

-- An accepted public id is trimmed, not empty, at most 255 characters and free of control
-- characters, and it is accepted again unchanged.
pub actor_id-IsPublicId :
    (v : Text) {t : ActorId} → actor_id v ≡ ok t → IsPublicId t × (actor_id t ≡ ok t)
actor_id-IsPublicId v {t} h =
    let (fits, e, filled, visible) = actor_id-ok v h in
    let normal : IsPublicId t = record {
      bounded = omega (arith, length-trim v, ap length e);
      trimmed = ap trim (sym e) ∙ trim_idem v ∙ e;
      filled = filled;
      visible = visible;
    } in
    (normal, actor_id_of_IsPublicId t normal)
