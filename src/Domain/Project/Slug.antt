-- ===== src/Domain/Project/Slug.antt =====
-- `ProjectSlug` of src/domain/project.rs. `slug::slugify` and `char::is_alphanumeric` are the
-- parameters `slugify` and `is_alphanumeric`.
pub mod Laws
use silicon_commit.Base.{
  ℕ, Bool, true, false, not, ◌&&◌, ◌||◌, [], ◌∷◌, map, Result, ok, err, fail_if, ◌>>=◌, ◌>>◌, ltb,
  leb, nat_beq, if◌then◌else◌, is_empty, all, take,
}
use silicon_commit.Text.{Text, chars, byte_len, starts_with}
use silicon_commit.Domain.Validation.{RequiredText}

abbrev pub max_project_slug_bytes : ℕ
max_project_slug_bytes = 200

abbrev pub ProjectSlug : Type 0
ProjectSlug = Text

pub data ProjectSlugError : Type 0 where
  empty too_long not_canonical : ProjectSlugError

-- `str::ends_with` of one character
unfoldable pub ends_with : Text → ℕ → Bool
ends_with [] d = false
ends_with (c ∷ []) d = nat_beq c d
ends_with (c ∷ e ∷ s) d = ends_with (e ∷ s) d

-- `str::contains`
unfoldable pub str_contains : Text → Text → Bool
str_contains [] p = is_empty p
str_contains (c ∷ s) p = starts_with (c ∷ s) p || str_contains s p

-- The test on each byte; a byte of a character that is not ASCII fails it.
unfoldable pub is_slug_character : ℕ → Bool
is_slug_character byte =
    (leb b'a' byte && leb byte b'z') || (leb b'0' byte && leb byte b'9') || nat_beq byte b'-'

-- `ProjectSlug::from_str`
unfoldable pub project_slug : Text → Result ProjectSlug ProjectSlugError
project_slug value = do
  fail_if (is_empty value) empty
  fail_if (ltb max_project_slug_bytes (byte_len value)) too_long
  fail_if
      (starts_with value (chars "-")
        || ends_with value b'-'
        || str_contains value (chars "--")
        || not (all is_slug_character value))
      not_canonical
  ok value

-- `while slug.ends_with('-') { slug.pop(); }`
unfoldable pub pop_dashes : Text → Text
pop_dashes [] = []
pop_dashes (c ∷ s) =
    let rest = pop_dashes s in if is_empty rest && nat_beq c b'-' then [] else c ∷ rest

-- The part of `from_name` that shortens the slug, where `truncate` counts the characters of an
-- ASCII text
unfoldable pub shortened : Text → Text
unfolding pop_dashes
shortened slug =
    if ltb max_project_slug_bytes (byte_len slug)
    then pop_dashes (take max_project_slug_bytes slug)
    else slug

abbrev pub or_project : Text → Text
or_project slug = if is_empty slug then chars "project" else slug

module _ (is_alphanumeric : ℕ → Bool) (slugify : Text → Text) where
  -- `ProjectSlug::from_name`
  unfoldable pub slug_from_name : RequiredText → Result ProjectSlug ProjectSlugError
  unfolding shortened
  slug_from_name name =
      let lexical_name = map (λ c. if is_alphanumeric c then c else b' ') name in
      project_slug (or_project (shortened (slugify lexical_name)))
