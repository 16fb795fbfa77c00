-- ===== src/Domain/Actor.antt =====
-- src/domain/actor.rs: account kinds, account references and resolved accounts.
pub mod Laws
use silicon_commit.Base.{
  Bool, true, false, Option, none, some, String, if◌then◌else◌, Result, ok, err, ◌==◌, string_eq,
  Eq, ◌≡◌, ◌↔◌, arith,
}
use silicon_commit.Text.{Text, chars, starts_with, to_ascii_lowercase}
use silicon_commit.Domain.Ids.{AccountUuid, ActorId}

pub data ActorType : Type 0 where
  carbon silicon : ActorType

unfoldable pub actor_type_beq : ActorType → ActorType → Bool
actor_type_beq carbon carbon = true
actor_type_beq silicon silicon = true
actor_type_beq _ _ = false

pub actor_type_beq_iff : (a b : ActorType) → (actor_type_beq a b ≡ true) ↔ (a ≡ b)
unfolding actor_type_beq
actor_type_beq_iff carbon carbon = ground arith
actor_type_beq_iff _ _ = ground arith

instance abbrev pub actor_type_eq : Eq ActorType
actor_type_eq = record { same = actor_type_beq; same_iff = actor_type_beq_iff }

-- `ActorType::as_str`
unfoldable pub actor_type_as_str : ActorType → String
actor_type_as_str carbon = "carbon"
actor_type_as_str silicon = "silicon"

pub data ParseActorTypeError : Type 0 where
  parse_actor_type_error : ParseActorTypeError

-- `ActorType::from_str`
unfoldable pub actor_type_from_str : String → Result ActorType ParseActorTypeError
actor_type_from_str value =
    if value == "carbon"
    then ok carbon
    else if value == "silicon"
    then ok silicon
    else err parse_actor_type_error

-- The wire reference of an account.
pub record ActorRef : Type 0 where
  pub actor_type : ActorType
  pub id : ActorId
  pub uuid : AccountUuid

pub record Actor : Type 0 where
  pub uuid : AccountUuid
  pub actor_type : ActorType
  pub id : ActorId

-- `Actor::public_ref`
unfoldable pub public_ref : Actor → ActorRef
public_ref a = record { actor_type = a.actor_type; id = a.id; uuid = a.uuid }

-- `Actor::is_silicon`
unfoldable pub is_silicon : Actor → Bool
is_silicon a = a.actor_type == silicon

-- `ActorId::prefixed_kind`
unfoldable pub prefixed_kind : ActorId → Option ActorType
prefixed_kind id =
    let lower = to_ascii_lowercase id in
    if starts_with lower (chars "c:")
    then some carbon
    else if starts_with lower (chars "si:")
    then some silicon
    else none
