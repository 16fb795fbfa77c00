-- ===== src/Domain/Todo/Laws.antt =====
-- What the validation of todo documents establishes (src/domain/todo.rs).
use mathlib.Core.List.{Nodup}
use silicon_commit.Base.{
  ℕ, ◌≤◌, ◌≡◌, refl, ap, ◌∙◌, false, List, Option, none, some, length, ok, traverse, bind-ok,
  OnSome, arith, list_eq, nat_eq, String,
}
use silicon_commit.Text.{Text, trim}
use silicon_commit.Domain.Validation.{
  DomainLimits, required_text, limited_text, ensure_item_count, ensure_unique,
}
use silicon_commit.Domain.Validation.Laws.{
  IsStorable, IsNormal, required_text-ok, required_text-IsNormal, limited_text-ok,
}
use silicon_commit.Domain.Validation.Unique.{ensure_unique_iff}
use silicon_commit.Domain.Attachment.{AttachmentUrl}
use silicon_commit.Domain.Todo.{
  TodoCreate, ValidatedTodoCreate, TodoPatch, ValidatedTodoPatch, NullablePatch, absent, null,
  value, try_map, is_some, is_empty_patch, validate_attachments, validate_create, validate_patch,
}

-- An attachment list that may be stored: within the limit, and without repetition.
pub record IsAttachmentSet (max : ℕ) (xs : List AttachmentUrl) : Type 0 where
  pub fits : length xs ≤ max
  pub distinct : Nodup xs

attachments_checks :
    (xs : List AttachmentUrl) (max : ℕ) {ys : List AttachmentUrl}
    → validate_attachments xs max ≡ ok ys
    → (xs ≡ ys) × (length xs ≤ max) × (ensure_unique "attachments" xs ≡ ok tt)
unfolding validate_attachments ensure_item_count
attachments_checks xs max h = ground arith

pub validate_attachments-ok :
    (xs : List AttachmentUrl) (max : ℕ) {ys : List AttachmentUrl}
    → validate_attachments xs max ≡ ok ys
    → (xs ≡ ys) × IsAttachmentSet max xs
validate_attachments-ok xs max h =
    let (same, fits, unique) = attachments_checks xs max h in
    (same, record { fits = fits; distinct = (ensure_unique_iff "attachments" xs).0 unique })

-- What holds of a given PATCH value.
abbrev pub OnValue {ℓ κ} : {T : Type ℓ} → (T → Type κ) → NullablePatch T → Type κ
OnValue P absent = Unit
OnValue P null = Unit
OnValue P (value v) = P v

-- A validated creation: the title in normal form, the description storable, the attachments a set
-- within the limit, and all but the title as it was given.
pub record IsCreateOf (limits : DomainLimits) (r : TodoCreate) (v : ValidatedTodoCreate)
    : Type 0 where
  pub title : IsNormal limits.title_chars v.title
  pub title_trim : trim r.title ≡ v.title
  pub description : OnSome (IsStorable limits.description_chars) v.description
  pub description_kept : r.description ≡ v.description
  pub attachments : IsAttachmentSet limits.attachments_per_todo v.attachments
  pub attachments_kept : r.attachments ≡ v.attachments
  pub assignee_kept : r.assigned_to ≡ v.assigned_to
  pub status_kept : r.status ≡ v.status
  pub project_kept : r.project_id ≡ v.project_id

create_steps :
    (r : TodoCreate) (limits : DomainLimits) {v : ValidatedTodoCreate}
    → validate_create r limits ≡ ok v
    → (required_text "title" r.title limits.title_chars ≡ ok v.title)
      × (traverse (λ d. limited_text "description" d limits.description_chars) r.description
          ≡ ok v.description)
      × (validate_attachments r.attachments limits.attachments_per_todo ≡ ok v.attachments)
      × (r.assigned_to ≡ v.assigned_to)
      × (r.status ≡ v.status)
      × (r.project_id ≡ v.project_id)
unfolding validate_create
create_steps r limits h = ground arith

limited_option :
    (field : String) (n : ℕ) (o p : Option Text)
    → traverse (λ d. limited_text field d n) o ≡ ok p
    → OnSome (IsStorable n) p × (o ≡ p)
limited_option field n none none h = (tt, refl)
limited_option field n none (some e) h = absurd (cc h)
limited_option field n (some d) none h =
    let (t, _, k) = bind-ok (limited_text field d n) (λ b. ok (some b)) h in absurd (cc k)
limited_option field n (some d) (some e) h =
    let (t, got, k) = bind-ok (limited_text field d n) (λ b. ok (some b)) h in
    let same : t ≡ e = cc k in
    let (storable, kept) = limited_text-ok field d n got in
    let whole : d ≡ e = kept ∙ same in (rw (← whole) storable, ap some whole)

-- A creation that is accepted has a title in normal form that is the given one trimmed, a storable
-- description, attachments that are distinct and within the limit, and all else as it was given.
pub validate_create-IsCreateOf :
    (r : TodoCreate) (limits : DomainLimits) {v : ValidatedTodoCreate}
    → validate_create r limits ≡ ok v
    → IsCreateOf limits r v
validate_create-IsCreateOf r limits {v} h =
    let (title, described, attached, assignee, status, project) = create_steps r limits h in
    let (storable, kept) = limited_option "description" _ r.description v.description described in
    let (same, set) = validate_attachments-ok r.attachments _ attached in
    record {
      title = (required_text-IsNormal "title" "title" r.title _ title).0;
      title_trim = (required_text-ok "title" r.title _ title).1;
      description = storable;
      description_kept = kept;
      attachments = rw (← same) set;
      attachments_kept = same;
      assignee_kept = assignee;
      status_kept = status;
      project_kept = project;
    }

-- A validated patch names the fields that the request named, and no others.
pub record IsPatchOf (limits : DomainLimits) (p : TodoPatch) (v : ValidatedTodoPatch) : Type 0 where
  pub not_empty : is_empty_patch p ≡ false
  pub title : OnSome (IsNormal limits.title_chars) v.title
  pub title_given : is_some v.title ≡ is_some p.title
  pub description : OnValue (IsStorable limits.description_chars) v.description
  pub description_kept : p.description ≡ v.description
  pub attachments : OnSome (IsAttachmentSet limits.attachments_per_todo) v.attachments
  pub attachments_kept : p.attachments ≡ v.attachments
  pub assignee_kept : p.assigned_to ≡ v.assigned_to
  pub status_kept : p.status ≡ v.status
  pub project_kept : p.project_id ≡ v.project_id

patch_steps :
    (p : TodoPatch) (limits : DomainLimits) {v : ValidatedTodoPatch}
    → validate_patch p limits ≡ ok v
    → (is_empty_patch p ≡ false)
      × (traverse (λ t. required_text "title" t limits.title_chars) p.title ≡ ok v.title)
      × (try_map (λ d. limited_text "description" d limits.description_chars) p.description
          ≡ ok v.description)
      × (traverse (λ a. validate_attachments a limits.attachments_per_todo) p.attachments
          ≡ ok v.attachments)
      × (p.assigned_to ≡ v.assigned_to)
      × (p.status ≡ v.status)
      × (p.project_id ≡ v.project_id)
unfolding validate_patch
patch_steps p limits h = ground arith

required_option :
    (field : String) (n : ℕ) (o p : Option Text)
    → traverse (λ d. required_text field d n) o ≡ ok p
    → OnSome (IsNormal n) p × (is_some p ≡ is_some o)
required_option field n none none h = (tt, refl)
required_option field n none (some e) h = absurd (cc h)
required_option field n (some d) none h =
    let (t, _, k) = bind-ok (required_text field d n) (λ b. ok (some b)) h in absurd (cc k)
required_option field n (some d) (some e) h =
    let (t, got, k) = bind-ok (required_text field d n) (λ b. ok (some b)) h in
    let same : t ≡ e = cc k in (rw (← same) (required_text-IsNormal field field d n got).0, refl)

limited_patch :
    (field : String) (n : ℕ) (o p : NullablePatch Text)
    → try_map (λ d. limited_text field d n) o ≡ ok p
    → OnValue (IsStorable n) p × (o ≡ p)
limited_patch field n absent p h = let same : absent ≡ p = cc h in (rw (← same) tt, same)
limited_patch field n null p h = let same : null ≡ p = cc h in (rw (← same) tt, same)
limited_patch field n (value d) p h =
    let (t, got, k) = bind-ok (limited_text field d n) (λ b. ok (value b)) h in
    let (storable, kept) = limited_text-ok field d n got in
    let same : value d ≡ p = cc (kept, k) in (rw (← same) storable, same)

attachment_option :
    (max : ℕ) (o p : Option (List AttachmentUrl))
    → traverse (λ a. validate_attachments a max) o ≡ ok p
    → OnSome (IsAttachmentSet max) p × (o ≡ p)
attachment_option max none p h = let same : none ≡ p = cc h in (rw (← same) tt, same)
attachment_option max (some a) p h =
    let (t, got, k) = bind-ok (validate_attachments a max) (λ b. ok (some b)) h in
    let (kept, set) = validate_attachments-ok a max got in
    let same : some a ≡ p = cc (kept, k) in (rw (← same) set, same)

-- A patch that is accepted is not empty, its given values are normal, storable or within the
-- limits, and it names exactly the fields that the request named, with the values other than the
-- title as they were given.
pub validate_patch-IsPatchOf :
    (p : TodoPatch) (limits : DomainLimits) {v : ValidatedTodoPatch}
    → validate_patch p limits ≡ ok v
    → IsPatchOf limits p v
validate_patch-IsPatchOf p limits {v} h =
    let (full, titled, described, attached, assignee, status, project) = patch_steps p limits h in
    let (normal, given) = required_option "title" _ p.title v.title titled in
    let (storable, kept) = limited_patch "description" _ p.description v.description described in
    let (set, same) = attachment_option _ p.attachments v.attachments attached in
    record {
      not_empty = full;
      title = normal;
      title_given = given;
      description = storable;
      description_kept = kept;
      attachments = set;
      attachments_kept = same;
      assignee_kept = assignee;
      status_kept = status;
      project_kept = project;
    }
