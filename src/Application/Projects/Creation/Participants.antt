-- ===== src/Application/Projects/Creation/Participants.antt =====
-- The creator takes part in a new project, whatever the account directory answers.
use silicon_commit.Base.{
  ◌≡◌, sym, ap, ◌∙◌, subst, true, false, List, [], ◌∷◌, ◌++◌, ok, bind-ok, ok_inj, arith, contains,
  any, is_empty, ◌==◌, list_eq, nat_eq, beq_refl, list_beq_iff, if◌then◌else◌,
}
use silicon_commit.Text.{to_ascii_lowercase, eq_ignore_ascii_case}
use silicon_commit.Domain.Ids.{ActorId}
use silicon_commit.Domain.Actor.{
  Actor, ActorType, carbon, silicon, actor_type_eq, actor_type_beq_iff,
}
use silicon_commit.Domain.Project.{ValidatedProjectCreate}
use silicon_commit.Domain.Project.Laws.{ids_of_kind}
use silicon_commit.Application.Authorization.{VerifiedActor}
use silicon_commit.Application.Projects.Membership.{
  Directory, is_caller, lookup_ids, resolve_members, resolve_participants, ensure_unique_members,
  uuids,
}

is_caller_self :
    (actor : VerifiedActor)
    → is_empty actor.actor.id ≡ false
    → is_caller actor actor.actor.actor_type actor.actor.id ≡ true
unfolding is_caller eq_ignore_ascii_case
is_caller_self actor n = ground (
  arith,
  actor_type_beq_iff actor.actor.actor_type actor.actor.actor_type,
  n,
  beq_refl (to_ascii_lowercase actor.actor.id),
)

is_caller_same :
    (actor : VerifiedActor) (kind : ActorType) (a b : ActorId)
    → (a == b) ≡ true
    → is_caller actor kind a ≡ is_caller actor kind b
is_caller_same actor kind a b h = ap (is_caller actor kind) ((list_beq_iff a b).0 h)

caller_listed :
    (actor : VerifiedActor) (kind : ActorType) (ids : List ActorId)
    → is_caller actor kind actor.actor.id ≡ true
    → contains ids actor.actor.id ≡ true
    → any (λ id. is_caller actor kind id) ids ≡ true
caller_listed actor kind [] c h = h
caller_listed actor kind (a ∷ ids) c h =
    ground (arith, is_caller_same actor kind a actor.actor.id, caller_listed actor kind ids c)

contains-uuids : (a : Actor) (xs ys : List Actor) → contains (uuids (xs ++ a ∷ ys)) a.uuid ≡ true
contains-uuids a [] ys = ground (arith, beq_refl a.uuid)
contains-uuids a (x ∷ xs) ys = ground (arith, contains-uuids a xs ys)

-- Members that begin with the caller
resolve_members-caller :
    (directory : Directory) (actor : VerifiedActor) (ids : List ActorId) (kind : ActorType)
    {ms : List Actor}
    → any (λ id. is_caller actor kind id) ids ≡ true
    → resolve_members directory actor ids kind ≡ ok ms
    → (others : List Actor) × (actor.actor ∷ others ≡ ms)
unfolding resolve_members
resolve_members-caller directory actor ids kind {ms} c h =
    let (found, _, k) =
      bind-ok
        (if is_empty (lookup_ids actor kind ids)
          then ok []
          else directory (lookup_ids actor kind ids) kind)
        _ h in
    (found, ap (λ b. if b then actor.actor ∷ found else found) (sym c) ∙ ok_inj _ ms k)

resolve_participants-silicon :
    (directory : Directory) (actor : VerifiedActor) (silicon_ids carbon_ids : List ActorId)
    {ms : List Actor}
    → any (λ id. is_caller actor silicon id) silicon_ids ≡ true
    → resolve_participants directory actor silicon_ids carbon_ids ≡ ok ms
    → contains (uuids ms) actor.actor.uuid ≡ true
unfolding resolve_participants
resolve_participants-silicon directory actor silicon_ids carbon_ids {ms} c h =
    let (silicons, got, h₁) = bind-ok (resolve_members directory actor silicon_ids silicon) _ h in
    let (carbons, _, h₂) = bind-ok (resolve_members directory actor carbon_ids carbon) _ h₁ in
    let (_, _, h₃) = bind-ok (ensure_unique_members (silicons ++ carbons)) _ h₂ in
    let (others, listed) = resolve_members-caller directory actor silicon_ids silicon c got in
    subst (λ xs. contains (uuids xs) actor.actor.uuid ≡ true)
      (ap (λ xs. xs ++ carbons) listed ∙ ok_inj (silicons ++ carbons) ms h₃)
      (contains-uuids actor.actor [] (others ++ carbons))

resolve_participants-carbon :
    (directory : Directory) (actor : VerifiedActor) (silicon_ids carbon_ids : List ActorId)
    {ms : List Actor}
    → any (λ id. is_caller actor carbon id) carbon_ids ≡ true
    → resolve_participants directory actor silicon_ids carbon_ids ≡ ok ms
    → contains (uuids ms) actor.actor.uuid ≡ true
unfolding resolve_participants
resolve_participants-carbon directory actor silicon_ids carbon_ids {ms} c h =
    let (silicons, _, h₁) = bind-ok (resolve_members directory actor silicon_ids silicon) _ h in
    let (carbons, got, h₂) = bind-ok (resolve_members directory actor carbon_ids carbon) _ h₁ in
    let (_, _, h₃) = bind-ok (ensure_unique_members (silicons ++ carbons)) _ h₂ in
    let (others, listed) = resolve_members-caller directory actor carbon_ids carbon c got in
    subst (λ xs. contains (uuids xs) actor.actor.uuid ≡ true)
      (ap (λ xs. silicons ++ xs) listed ∙ ok_inj (silicons ++ carbons) ms h₃)
      (contains-uuids actor.actor silicons others)

-- The creator is among the participants.
pub creator_participates :
    (directory : Directory) (actor : VerifiedActor) (v : ValidatedProjectCreate) {ms : List Actor}
    → is_empty actor.actor.id ≡ false
    → contains (ids_of_kind actor.actor.actor_type v) actor.actor.id ≡ true
    → resolve_participants directory actor v.silicon_ids v.details.carbon_ids ≡ ok ms
    → contains (uuids ms) actor.actor.uuid ≡ true
creator_participates directory actor v {ms} named listed h = by_kind actor.actor.actor_type (
    caller_listed actor actor.actor.actor_type (ids_of_kind actor.actor.actor_type v)
      (is_caller_self actor named) listed)
  where
    by_kind :
        (kind : ActorType)
        → any (λ id. is_caller actor kind id) (ids_of_kind kind v) ≡ true
        → contains (uuids ms) actor.actor.uuid ≡ true
    by_kind carbon c =
        resolve_participants-carbon directory actor v.silicon_ids v.details.carbon_ids c h
    by_kind silicon c =
        resolve_participants-silicon directory actor v.silicon_ids v.details.carbon_ids c h
