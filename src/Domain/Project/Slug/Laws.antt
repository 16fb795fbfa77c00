-- ===== src/Domain/Project/Slug/Laws.antt =====
-- Every project name has a slug (src/domain/project.rs).
use silicon_commit.Base.{
  ℕ, ◌≤◌, ◌≡◌, refl, sym, ap, ◌∙◌, subst, Bool, true, false, ◌&&◌, [], ◌∷◌, ◌++◌, ok, ltb, nat_beq,
  is_empty, all, take, drop, length, length-take, take-append-drop, length-append, append_assoc,
  arith, Bool-cases, inl, inr, or_false, map, if◌then◌else◌,
}
use silicon_commit.Text.{Text, chars, byte_len, starts_with}
use silicon_commit.Domain.Validation.{RequiredText}
use silicon_commit.Domain.Project.Slug.{
  ProjectSlug, max_project_slug_bytes, project_slug, slug_from_name, ends_with, str_contains,
  is_slug_character, pop_dashes, shortened, or_project,
}

-- What a canonical slug is made of.
pub record IsSlug (s : Text) : Type 0 where
  pub filled : is_empty s ≡ false
  pub fits : length s ≤ max_project_slug_bytes
  pub no_first : starts_with s (chars "-") ≡ false
  pub no_last : ends_with s b'-' ≡ false
  pub no_double : str_contains s (chars "--") ≡ false
  pub simple : all is_slug_character s ≡ true

-- What the slugifier documents of its results: letters, digits and single dashes between them.
pub record IsSlugified (s : Text) : Type 0 where
  pub no_first : starts_with s (chars "-") ≡ false
  pub no_last : ends_with s b'-' ≡ false
  pub no_double : str_contains s (chars "--") ≡ false
  pub simple : all is_slug_character s ≡ true

pub byte_len-simple : (s : Text) → all is_slug_character s ≡ true → byte_len s ≡ length s
unfolding byte_len is_slug_character
byte_len-simple [] h = refl
byte_len-simple (c ∷ s) h = ground (arith, byte_len-simple s)

-- A text is parsed as a slug exactly when it is canonical, and then kept as it is.
pub project_slug-ok : (s : Text) {t : ProjectSlug} → project_slug s ≡ ok t → (s ≡ t) × IsSlug s
unfolding project_slug
project_slug-ok s h = ground (arith, byte_len-simple s)

pub project_slug_of_IsSlug : (s : Text) → IsSlug s → project_slug s ≡ ok s
unfolding project_slug
project_slug_of_IsSlug s n = ground (arith, byte_len-simple s)

starts_with-append : (a b p : Text) → starts_with (a ++ b) p ≡ false → starts_with a p ≡ false
unfolding starts_with
starts_with-append a b [] h = absurd (cc h)
starts_with-append [] b (d ∷ p) h = refl
starts_with-append (c ∷ a) b (d ∷ p) h = ground (arith, starts_with-append a b p)

str_contains-append :
    (a b : Text) (d : ℕ) (p : Text)
    → str_contains (a ++ b) (d ∷ p) ≡ false
    → str_contains a (d ∷ p) ≡ false
unfolding str_contains
str_contains-append [] b d p h = refl
str_contains-append (c ∷ a) b d p h =
    let both = or_false (starts_with (c ∷ a ++ b) (d ∷ p)) (str_contains (a ++ b) (d ∷ p)) h in
    rw (starts_with-append (c ∷ a) b (d ∷ p) both.0) (str_contains-append a b d p both.1)

all-prefix : (p : ℕ → Bool) (a b : Text) → all p (a ++ b) ≡ true → all p a ≡ true
all-prefix p [] b h = refl
all-prefix p (c ∷ a) b h = ground (arith, all-prefix p a b)

-- The dashes that `pop_dashes` takes off.
popped : Text → Text
unfolding pop_dashes
popped [] = []
popped (c ∷ s) =
    let rest = popped s in if is_empty (pop_dashes s) && nat_beq c b'-' then c ∷ rest else rest

pop_dashes_prefix : (s : Text) → pop_dashes s ++ popped s ≡ s
unfolding pop_dashes popped
pop_dashes_prefix [] = refl
pop_dashes_prefix (c ∷ s) = elim (Bool-cases (is_empty (pop_dashes s) && nat_beq c b'-')) [
  | inl h ↦ rw h (ap (λ r. c ∷ r) (ground (arith, pop_dashes_prefix s)))
  | inr h ↦ rw h (ap (λ r. c ∷ r) (pop_dashes_prefix s))
]

ends_with-cons :
    (c : ℕ) (s : Text) (d : ℕ)
    → (is_empty s && nat_beq c d) ≡ false
    → ends_with s d ≡ false
    → ends_with (c ∷ s) d ≡ false
unfolding ends_with
ends_with-cons c [] d h k = ground arith
ends_with-cons c (e ∷ s) d h k = k

pop_dashes_end : (s : Text) → ends_with (pop_dashes s) b'-' ≡ false
unfolding pop_dashes ends_with
pop_dashes_end [] = refl
pop_dashes_end (c ∷ s) = elim (Bool-cases (is_empty (pop_dashes s) && nat_beq c b'-')) [
  | inl h ↦ rw h refl
  | inr h ↦ rw h (ends_with-cons c (pop_dashes s) b'-' h (pop_dashes_end s))
]

prefix-IsSlugified : (a b : Text) → IsSlugified (a ++ b) → ends_with a b'-' ≡ false → IsSlugified a
prefix-IsSlugified a b s e = record {
  no_first = starts_with-append a b (chars "-") s.no_first;
  no_last = e;
  no_double = str_contains-append a b b'-' (chars "-") s.no_double;
  simple = all-prefix is_slug_character a b s.simple;
}

-- What is left of a slugified text is slugified and at most 200 bytes long.
shortened_lem :
    (s : Text)
    → IsSlugified s
    → IsSlugified (shortened s) × (length (shortened s) ≤ max_project_slug_bytes)
unfolding shortened
shortened_lem s n = elim (Bool-cases (ltb max_project_slug_bytes (byte_len s))) [
  | inl long ↦
      let cut = take max_project_slug_bytes s in
      let whole : pop_dashes cut ++ (popped cut ++ drop max_project_slug_bytes s) ≡ s =
        sym (append_assoc (pop_dashes cut) (popped cut) (drop max_project_slug_bytes s))
        ∙ ap (λ r. r ++ drop max_project_slug_bytes s) (pop_dashes_prefix cut)
        ∙ take-append-drop max_project_slug_bytes s in
      rw long (
        prefix-IsSlugified _ _ (subst IsSlugified (sym whole) n) (pop_dashes_end cut),
        omega (
          arith,
          length-take max_project_slug_bytes s,
          ap length (pop_dashes_prefix cut),
          length-append (pop_dashes cut) (popped cut),
        ),
      )
  | inr short ↦ rw short (n, ground (arith, byte_len-simple s n.simple))
]

or_project-IsSlug :
    (s : Text) → IsSlugified s → length s ≤ max_project_slug_bytes → IsSlug (or_project s)
unfolding starts_with ends_with str_contains is_slug_character
or_project-IsSlug [] n l = record {
  filled = refl;
  fits = omega arith;
  no_first = refl;
  no_last = refl;
  no_double = refl;
  simple = refl;
}
or_project-IsSlug (c ∷ s) n l = record {
  filled = refl;
  fits = l;
  no_first = n.no_first;
  no_last = n.no_last;
  no_double = n.no_double;
  simple = n.simple;
}

-- An accepted slug of a name is canonical.
pub slug_from_name-IsSlug :
    (is_alphanumeric : ℕ → Bool) (slugify : Text → Text) (name : RequiredText) {slug : ProjectSlug}
    → slug_from_name is_alphanumeric slugify name ≡ ok slug
    → IsSlug slug
unfolding slug_from_name
slug_from_name-IsSlug is_alphanumeric slugify name {slug} h =
    let (same, canonical) = project_slug-ok _ h in subst IsSlug same canonical

module _ (is_alphanumeric : ℕ → Bool) (slugify : Text → Text)
    (documented : (t : Text) → IsSlugified (slugify t)) where
  -- Every project name has a slug, which is canonical and accepted again unchanged, if `slugify`
  -- returns what the `slug` crate documents: lower-case ASCII letters and digits joined by single
  -- dashes.
  pub slug_from_name_total :
      (name : RequiredText)
      → (slug : ProjectSlug) × (slug_from_name is_alphanumeric slugify name ≡ ok slug)
        × IsSlug slug
        × (project_slug slug ≡ ok slug)
  unfolding slug_from_name
  slug_from_name_total name =
      let text = slugify (map (λ c. if is_alphanumeric c then c else b' ') name) in
      let (simple, fits) = shortened_lem text (documented _) in
      let canonical = or_project-IsSlug (shortened text) simple fits in
      let parsed = project_slug_of_IsSlug (or_project (shortened text)) canonical in
      (or_project (shortened text), parsed, canonical, parsed)
