-- ===== src/Domain/Project/Laws.antt =====
-- What an accepted project command establishes (src/domain/project.rs).
pub mod Patch
use mathlib.Core.List.{Nodup}
use silicon_commit.Base.{
  ℕ, ◌≤◌, ◌≡◌, ◌≢◌, refl, Bool, true, false, List, [], Option, none, some, length, contains, ok,
  bind-ok, arith, ◌==◌, list_eq, nat_eq, ap, ◌∙◌, sym, String, inl, inr, Bool-cases, and_true, not,
  ◌&&◌, ◌∷◌, length-append, OnSome, fail_if, fail_if-ok, ok_inj, subst, traverse, ◌>>◌,
}
use silicon_commit.Text.{Text, trim}
use silicon_commit.Domain.Validation.{
  DomainLimits, Validated, RequiredText, required_text, limited_text, ensure_item_count,
  ensure_unique,
}
use silicon_commit.Domain.Validation.Laws.{
  IsStorable, IsNormal, required_text-ok, required_text-IsNormal, limited_text-ok,
}
use silicon_commit.Domain.Validation.Unique.{ensure_unique_iff}
use silicon_commit.Domain.Validation.Members.{Nodup-append_new, contains-append_last}
use silicon_commit.Domain.Ids.{ActorId}
use silicon_commit.Domain.Actor.{
  Actor, ActorType, carbon, silicon, actor_type_eq, actor_type_beq_iff,
}
use silicon_commit.Domain.Project.Slug.{slug_from_name}
use silicon_commit.Domain.Project.Slug.Laws.{IsSlug, slug_from_name-IsSlug}
use silicon_commit.Domain.Project.{
  ProjectDetails, validate_details, ProjectCreate, ValidatedProjectCreate, validate_project_create,
  with_creator, ensure_room, ProjectPatch, ValidatedProjectPatch, validate_project_patch,
  is_empty_project_patch, list_or_empty, bool_or_false, is_completing,
}
use silicon_commit.Domain.Project.Status.{completed, project_status_beq}

-- Ids of accounts that may be stored: within the limit, and without repetition.
pub record IsIdSet (max : ℕ) (ids : List ActorId) : Type 0 where
  pub fits : length ids ≤ max
  pub distinct : Nodup ids

pub record IsDetails (limits : DomainLimits) (d : ProjectDetails) : Type 0 where
  pub description : IsStorable limits.description_chars d.description
  pub attachments_fit : length d.attachments ≤ limits.attachments_per_todo
  pub attachments_distinct : Nodup d.attachments
  pub carbon_ids : IsIdSet limits.participants_per_project d.carbon_ids

pub item_count-ok :
    (field : String) (n min max : ℕ) → ensure_item_count field n min max ≡ ok tt → n ≤ max
unfolding ensure_item_count
item_count-ok field n min max h = ground arith

pub validate_details-IsDetails :
    (d : ProjectDetails) (limits : DomainLimits)
    → validate_details d limits ≡ ok tt
    → IsDetails limits d
unfolding validate_details
validate_details-IsDetails d limits h =
    let (_, text, h₁) =
      bind-ok (limited_text "description" d.description limits.description_chars) _ h in
    let (_, count, h₂) =
      bind-ok (ensure_item_count "attachments" (length d.attachments) 0 limits.attachments_per_todo)
        _ h₁ in
    let (_, unique, h₃) = bind-ok (ensure_unique "attachments" d.attachments) _ h₂ in
    let (_, carbons, h₄) =
      bind-ok
        (ensure_item_count "carbon_ids" (length d.carbon_ids) 0 limits.participants_per_project) _
        h₃ in
    record {
      description = (limited_text-ok "description" d.description _ text).0;
      attachments_fit = item_count-ok "attachments" _ 0 _ count;
      attachments_distinct = (ensure_unique_iff "attachments" d.attachments).0 unique;
      carbon_ids = record {
        fits = item_count-ok "carbon_ids" _ 0 _ carbons;
        distinct = (ensure_unique_iff "carbon_ids" d.carbon_ids).0 h₄;
      };
    }

-- The creator is in the set of its kind, and the set stays distinct.
with_creator-distinct :
    (kind : ActorType) (creator : Actor) (ids : List ActorId)
    → Nodup ids
    → Nodup (with_creator kind creator ids)
with_creator-distinct kind creator ids d =
    elim (Bool-cases (creator.actor_type == kind && not (contains ids creator.id))) [
      | inl new ↦ rw new (
          Nodup-append_new ids creator.id d (
            ground
              (arith, and_true (creator.actor_type == kind) (not (contains ids creator.id)) new)))
      | inr old ↦ rw old d
    ]

pub with_creator-listed :
    (kind : ActorType) (creator : Actor) (ids : List ActorId)
    → creator.actor_type ≡ kind
    → contains (with_creator kind creator ids) creator.id ≡ true
with_creator-listed kind creator ids k =
    ground (arith, contains-append_last ids creator.id, actor_type_beq_iff creator.actor_type kind)

silicons_fit :
    (creator : Actor) (ids : List ActorId) (limits : DomainLimits)
    → length ids ≤ limits.participants_per_project
    → ensure_room creator ids limits ≡ ok tt
    → length (with_creator silicon creator ids) ≤ limits.participants_per_project
unfolding ensure_item_count
silicons_fit creator ids limits h r = ground (arith, length-append ids (creator.id ∷ []))

-- The member ids of one kind of account.
abbrev pub ids_of_kind : ActorType → ValidatedProjectCreate → List ActorId
ids_of_kind carbon v = v.details.carbon_ids
ids_of_kind silicon v = v.silicon_ids

creator_in :
    (v : ValidatedProjectCreate) (r : ProjectCreate) (creator : Actor)
    → v.details ≡ record r.details { carbon_ids = with_creator carbon creator r.details.carbon_ids }
    → v.silicon_ids ≡ with_creator silicon creator r.silicon_ids
    → contains (ids_of_kind creator.actor_type v) creator.id ≡ true
creator_in v r creator details silicons = by_kind creator.actor_type refl
  where
    by_kind :
        (k : ActorType) → creator.actor_type ≡ k → contains (ids_of_kind k v) creator.id ≡ true
    by_kind carbon k =
        ap (λ (d : ProjectDetails). contains d.carbon_ids creator.id) details
        ∙ with_creator-listed carbon creator r.details.carbon_ids k
    by_kind silicon k =
        ap (λ ids. contains ids creator.id) silicons
        ∙ with_creator-listed silicon creator r.silicon_ids k

module _ (is_alphanumeric : ℕ → Bool) (slugify : Text → Text) where
  steps :
      (r : ProjectCreate) (limits : DomainLimits) (creator : Actor) {v : ValidatedProjectCreate}
      → validate_project_create is_alphanumeric slugify r limits creator ≡ ok v
      → (validate_details v.details limits ≡ ok tt)
        × (required_text "name" r.name limits.project_name_chars ≡ ok v.name)
        × (slug_from_name is_alphanumeric slugify v.name ≡ ok v.slug)
        × (ensure_item_count "silicon_ids" (length r.silicon_ids) 0 limits.participants_per_project
            ≡ ok tt)
        × (ensure_unique "silicon_ids" r.silicon_ids ≡ ok tt)
        × (ensure_room creator r.silicon_ids limits ≡ ok tt)
        × (v.silicon_ids ≡ with_creator silicon creator r.silicon_ids)
        × (v.details
            ≡ record r.details { carbon_ids = with_creator carbon creator r.details.carbon_ids })
        × (v.tasks ≡ r.tasks)
  unfolding validate_project_create
  steps r limits creator h = ground arith

  -- A validated creation.
  pub record IsProjectCreateOf (limits : DomainLimits) (creator : Actor) (r : ProjectCreate)
      (v : ValidatedProjectCreate) : Type 0 where
    pub name : IsNormal limits.project_name_chars v.name
    pub name_trim : trim r.name ≡ v.name
    pub slug : IsSlug v.slug
    pub details : IsDetails limits v.details
    pub silicon_ids : IsIdSet limits.participants_per_project v.silicon_ids
    pub creator_listed : contains (ids_of_kind creator.actor_type v) creator.id ≡ true
    pub tasks_kept : v.tasks ≡ r.tasks

  -- A creation that is accepted has a name in normal form that is the given one trimmed, a
  -- canonical slug, a storable description, attachments and participants that are distinct and
  -- within the limits, the creator among the participants of its kind, and the initial tasks as
  -- they were given.
  pub validate_project_create-IsProjectCreateOf :
      (r : ProjectCreate) (limits : DomainLimits) (creator : Actor) {v : ValidatedProjectCreate}
      → validate_project_create is_alphanumeric slugify r limits creator ≡ ok v
      → IsProjectCreateOf limits creator r v
  validate_project_create-IsProjectCreateOf r limits creator {v} h =
      let (valid, named, slugged, counted, unique, room, silicons, details, tasks) =
        steps r limits creator h in
      record {
        name = (required_text-IsNormal "name" "name" r.name _ named).0;
        name_trim = (required_text-ok "name" r.name _ named).1;
        slug = slug_from_name-IsSlug is_alphanumeric slugify v.name slugged;
        details = validate_details-IsDetails v.details limits valid;
        silicon_ids = record {
          fits = rw silicons (
              silicons_fit creator r.silicon_ids limits (item_count-ok "silicon_ids" _ 0 _ counted)
                room);
          distinct = rw silicons (
              with_creator-distinct silicon creator r.silicon_ids
                ((ensure_unique_iff "silicon_ids" r.silicon_ids).0 unique));
        };
        creator_listed = creator_in v r creator details silicons;
        tasks_kept = tasks;
      }
