-- ===== src/Domain/Validation.antt =====
-- src/domain/validation.rs: limits, validation errors, bounded text and collection checks.
pub mod Laws
pub mod Unique
pub mod Members
use silicon_commit.Base.{
  ℕ, ◌+◌, Bool, true, false, ◌||◌, List, [], ◌∷◌, Option, none, some, String, ltb, nat_beq,
  contains, if◌then◌else◌, is_empty, any, length, Eq, Result, ok, err, fail_if, ◌>>=◌, ◌>>◌,
}
use silicon_commit.Text.{Text, trim}

pub record DomainLimits : Type 0 where
  pub title_chars : ℕ
  pub project_name_chars : ℕ
  pub description_chars : ℕ
  pub note_chars : ℕ
  pub attachments_per_todo : ℕ
  pub participants_per_project : ℕ

-- `DomainLimits::default`
abbrev pub default_limits : DomainLimits
default_limits = record {
  title_chars = 500;
  project_name_chars = 200;
  description_chars = 20000;
  note_chars = 20000;
  attachments_per_todo = 20;
  participants_per_project = 100;
}

abbrev pub max_diary_words : ℕ
max_diary_words = 100000

pub data ValidationErrorKind : Type 0 where
  required : ValidationErrorKind
  too_long : (max actual : ℕ) → ValidationErrorKind
  too_few_items : (min actual : ℕ) → ValidationErrorKind
  too_many_items : (max actual : ℕ) → ValidationErrorKind
  duplicate_item : ValidationErrorKind
  empty_patch : ValidationErrorKind
  inverted_range : ValidationErrorKind
  too_many_words : (max actual : ℕ) → ValidationErrorKind
  nul_character : ValidationErrorKind
  invalid : String → ValidationErrorKind

pub record ValidationError : Type 0 where
  pub field : String
  pub kind : ValidationErrorKind

-- `ValidationError::new`
abbrev pub validation_error : String → ValidationErrorKind → ValidationError
validation_error field kind = record { field = field; kind = kind }

abbrev pub Validated {ℓ} : Type ℓ → Type ℓ
Validated A = Result A ValidationError

-- The inner string of a `RequiredText` and of a `LimitedText`.
abbrev pub RequiredText : Type 0
RequiredText = Text

abbrev pub LimitedText : Type 0
LimitedText = Text

unfoldable pub ensure_char_limit : String → Text → ℕ → Validated (Unit {0})
ensure_char_limit field value max_chars =
    fail_if (ltb max_chars (length value))
      (validation_error field (too_long max_chars (length value)))

unfoldable pub ensure_persistable_text : String → Text → Validated (Unit {0})
ensure_persistable_text field value =
    fail_if (any (λ c. nat_beq c 0) value) (validation_error field nul_character)

-- `RequiredText::new`
unfoldable pub required_text : String → Text → ℕ → Validated RequiredText
unfolding ensure_char_limit ensure_persistable_text
required_text field value max_chars = do
  ensure_persistable_text field value
  ensure_char_limit field value max_chars
  let normalized = trim value
  fail_if (is_empty normalized) (validation_error field required)
  ok normalized

-- `LimitedText::new`
unfoldable pub limited_text : String → Text → ℕ → Validated LimitedText
unfolding ensure_char_limit ensure_persistable_text
limited_text field value max_chars = do
  ensure_persistable_text field value
  ensure_char_limit field value max_chars
  ok value

unfoldable pub ensure_item_count : String → (actual min max : ℕ) → Validated (Unit {0})
ensure_item_count field actual min max = do
  fail_if (ltb actual min) (validation_error field (too_few_items min actual))
  fail_if (ltb max actual) (validation_error field (too_many_items max actual))

module _ {ℓ} {A : Type ℓ} ⦃e : Eq A⦄ (field : String) where
  -- The loop of `ensure_unique`; `observed` is the hash set.
  unfoldable pub observe : List A → List A → Validated (Unit {0})
  observe observed [] = ok tt
  observe observed (value ∷ values) =
      let rest = observe (value ∷ observed) values in
      if contains observed value then err (validation_error field duplicate_item) else rest

  unfoldable pub ensure_unique : List A → Validated (Unit {0})
  unfolding observe
  ensure_unique = observe []

-- The segmentation of the `unicode-segmentation` crate is the parameter `unicode_word_count`.
unfoldable pub validate_diary_markdown : (Text → ℕ) → Text → Validated ℕ
unfolding ensure_persistable_text
validate_diary_markdown unicode_word_count markdown = do
  ensure_persistable_text "markdown" markdown
  let actual = unicode_word_count markdown
  fail_if (ltb max_diary_words actual)
      (validation_error "markdown" (too_many_words max_diary_words actual))
  ok actual
