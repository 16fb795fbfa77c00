-- ===== src/Domain/Actor/Laws.antt =====
-- The spelling of account kinds is read back, and nothing else is (src/domain/actor.rs).
use silicon_commit.Base.{◌≡◌, refl, ◌↔◌, ◌∙◌, ap, String, ok, string_eq, arith}
use silicon_commit.Domain.Actor.{ActorType, carbon, silicon, actor_type_as_str, actor_type_from_str}

from_str_sound :
    (value : String) (t : ActorType)
    → actor_type_from_str value ≡ ok t
    → value ≡ actor_type_as_str t
unfolding actor_type_from_str actor_type_as_str
from_str_sound value carbon h = ground (arith, string_eq.same_iff value "carbon")
from_str_sound value silicon h = ground (arith, string_eq.same_iff value "silicon")

from_str-as_str : (t : ActorType) → actor_type_from_str (actor_type_as_str t) ≡ ok t
unfolding actor_type_from_str actor_type_as_str
from_str-as_str carbon = refl
from_str-as_str silicon = refl

-- Parsing an account kind gives `t` exactly for the spelling of `t`.
pub actor_type_from_str_iff :
    (value : String) (t : ActorType)
    → (actor_type_from_str value ≡ ok t) ↔ (value ≡ actor_type_as_str t)
actor_type_from_str_iff value t =
    (from_str_sound value t, λ p. ap actor_type_from_str p ∙ from_str-as_str t)
