-- ===== src/Domain/Project/Laws/Patch.antt =====
-- `ProjectPatch::validate` of src/domain/project.rs: what it accepts.
use silicon_commit.Base.{
  ℕ, ◌≡◌, ◌≢◌, refl, true, false, List, Option, none, some, length, ok, bind-ok, list_eq, nat_eq,
  ap, ◌∙◌, sym, String, OnSome, fail_if, fail_if-ok, ok_inj, subst, traverse, ◌>>◌,
}
use silicon_commit.Text.{Text}
use silicon_commit.Domain.Validation.{
  DomainLimits, Validated, RequiredText, required_text, ensure_item_count, ensure_unique,
}
use silicon_commit.Domain.Validation.Laws.{IsNormal, required_text-IsNormal}
use silicon_commit.Domain.Validation.Unique.{ensure_unique_iff}
use silicon_commit.Domain.Ids.{ActorId}
use silicon_commit.Domain.Actor.{actor_type_eq}
use silicon_commit.Domain.Project.{
  ProjectDetails, validate_details, ProjectPatch, ValidatedProjectPatch, validate_project_patch,
  is_empty_project_patch, list_or_empty, bool_or_false, is_completing,
}
use silicon_commit.Domain.Project.Status.{completed, project_status_beq}
use silicon_commit.Domain.Project.Laws.{
  IsIdSet, IsDetails, item_count-ok, validate_details-IsDetails,
}

-- The details that the validation of a patch looks at.
abbrev pub patch_details : ValidatedProjectPatch → ProjectDetails
patch_details v = record {
  description = list_or_empty v.description;
  attachments = list_or_empty v.attachments;
  private = bool_or_false v.private;
  carbon_ids = list_or_empty v.carbon_ids;
}

-- What an accepted patch satisfies.
pub record IsProjectPatchOf (limits : DomainLimits) (p : ProjectPatch) (v : ValidatedProjectPatch)
    : Type 0 where
  pub not_empty : is_empty_project_patch p ≡ false
  pub not_completing : v.status ≢ some completed
  pub name : OnSome (IsNormal limits.project_name_chars) v.name
  pub silicon_ids : OnSome (IsIdSet limits.participants_per_project) v.silicon_ids
  pub silicon_ids_kept : p.silicon_ids ≡ v.silicon_ids
  pub details : IsDetails limits (patch_details v)
  pub status_kept : p.status ≡ v.status
  pub description_kept : p.description ≡ v.description
  pub attachments_kept : p.attachments ≡ v.attachments
  pub private_kept : p.private ≡ v.private
  pub carbon_ids_kept : p.carbon_ids ≡ v.carbon_ids

id_set : Option (List ActorId) → DomainLimits → Validated (Option (List ActorId))
id_set ids limits =
    traverse
      (λ v. do
        ensure_item_count "silicon_ids" (length v) 0 limits.participants_per_project
        ensure_unique "silicon_ids" v
        ok v)
      ids

id_set-ok :
    (ids : Option (List ActorId)) (limits : DomainLimits) (out : Option (List ActorId))
    → id_set ids limits ≡ ok out
    → OnSome (IsIdSet limits.participants_per_project) out × (ids ≡ out)
unfolding id_set
id_set-ok none limits none h = (tt, refl)
id_set-ok none limits (some ys) h = absurd (cc h)
id_set-ok (some xs) limits out h =
    let (ys, checked, k) = bind-ok _ (λ b. ok (some b)) h in
    let (_, counted, k₂) =
      bind-ok (ensure_item_count "silicon_ids" (length xs) 0 limits.participants_per_project) _
        checked in
    let (_, unique, same) = bind-ok (ensure_unique "silicon_ids" xs) _ k₂ in
    let whole : some xs ≡ out = cc (k, same) in
    (
      subst (OnSome (IsIdSet limits.participants_per_project)) whole (record {
        fits = item_count-ok "silicon_ids" _ 0 _ counted;
        distinct = (ensure_unique_iff "silicon_ids" xs).0 unique;
      }),
      whole,
    )

kept_name :
    (field : String) (n : ℕ) (o : Option Text) (out : Option RequiredText)
    → traverse (λ d. required_text field d n) o ≡ ok out
    → OnSome (IsNormal n) out
kept_name field n none none h = tt
kept_name field n none (some t) h = absurd (cc h)
kept_name field n (some d) out h =
    let (t, got, k) = bind-ok (required_text field d n) (λ b. ok (some b)) h in
    let whole : some t ≡ out = cc k in
    subst (OnSome (IsNormal n)) whole (required_text-IsNormal field field d n got).0

true-ne-false : true ≢ false
true-ne-false p = cc p

-- A patch that is accepted is not empty and does not complete the project, its given values are
-- normal, storable, distinct or within the limits, and it names exactly the fields other than the
-- name that the request named, with their values as they were given.
pub validate_project_patch-IsProjectPatchOf :
    (p : ProjectPatch) (limits : DomainLimits) {v : ValidatedProjectPatch}
    → validate_project_patch p limits ≡ ok v
    → IsProjectPatchOf limits p v
unfolding validate_project_patch id_set project_status_beq
validate_project_patch-IsProjectPatchOf p limits {v} h =
    let (_, guarded, h₁) = bind-ok (fail_if (is_empty_project_patch p) _) _ h in
    let (_, open', h₂) = bind-ok (fail_if (is_completing p.status) _) _ h₁ in
    let (name, named, h₃) =
      bind-ok (traverse (λ d. required_text "name" d limits.project_name_chars) p.name) _ h₂ in
    let (ids, silicons, h₄) = bind-ok (id_set p.silicon_ids limits) _ h₃ in
    let (_, valid, h₅) = bind-ok (validate_details _ limits) _ h₄ in
    let (set, kept) = id_set-ok p.silicon_ids limits ids silicons in
    subst (IsProjectPatchOf limits p) (ok_inj _ v h₅) (record {
      not_empty = fail_if-ok (is_empty_project_patch p) _ guarded;
      not_completing = λ c.
          true-ne-false (sym (ap is_completing c) ∙ fail_if-ok (is_completing p.status) _ open');
      name = kept_name "name" _ p.name name named;
      silicon_ids = set;
      silicon_ids_kept = kept;
      details = validate_details-IsDetails _ limits valid;
      status_kept = refl;
      description_kept = refl;
      attachments_kept = refl;
      private_kept = refl;
      carbon_ids_kept = refl;
    })
