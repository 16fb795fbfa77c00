-- ===== src/Domain/Validation/Laws.antt =====
-- What bounded text and item counts establish (src/domain/validation.rs).
use silicon_commit.Base.{
  ℕ, ◌≤◌, ◌<◌, ◌≡◌, ◌⊎◌, ap, ◌∙◌, Bool, true, false, String, nat_beq, is_empty, any, length, arith,
  ok, err,
}
use silicon_commit.Text.{Text, trim}
use silicon_commit.Text.Laws.{length-trim, trim_idem, any-trim}
use silicon_commit.Domain.Validation.{
  validation_error, too_long, nul_character, required, required_text, limited_text,
}

abbrev pub has_nul : Text → Bool
has_nul value = any (λ c. nat_beq c 0) value

-- What a stored text of at most `n` characters satisfies.
pub record IsStorable (n : ℕ) (t : Text) : Type 0 where
  pub no_nul : has_nul t ≡ false
  pub fits : length t ≤ n

pub record IsNormal (n : ℕ) (t : Text) : Type 0 where
  pub storable : IsStorable n t
  pub trimmed : trim t ≡ t
  pub filled : is_empty t ≡ false

pub limited_text-ok :
    (field : String) (v : Text) (n : ℕ) {t : Text}
    → limited_text field v n ≡ ok t
    → IsStorable n v × (v ≡ t)
unfolding limited_text
limited_text-ok field v n h = ground arith

pub limited_text_of_IsStorable :
    (field : String) (v : Text) (n : ℕ) → IsStorable n v → limited_text field v n ≡ ok v
unfolding limited_text
limited_text_of_IsStorable field v n s = ground arith

pub required_text-ok :
    (field : String) (v : Text) (n : ℕ) {t : Text}
    → required_text field v n ≡ ok t
    → IsStorable n v × (trim v ≡ t) × (is_empty t ≡ false)
unfolding required_text
required_text-ok field v n h = ground arith

pub required_text_of_IsStorable :
    (field : String) (v : Text) (n : ℕ)
    → IsStorable n v
    → is_empty (trim v) ≡ false
    → required_text field v n ≡ ok (trim v)
unfolding required_text
required_text_of_IsStorable field v n s h = ground arith

-- Every outcome of `RequiredText::new`, in the order of its checks: a NUL, then a length over the
-- limit, then a blank value, and otherwise the trimmed value.
pub required_text_outcomes :
    (field : String) (v : Text) (n : ℕ)
    → ((has_nul v ≡ true) × (required_text field v n ≡ err (validation_error field nul_character)))
      ⊎ ((has_nul v ≡ false)
          × (n < length v)
          × (required_text field v n ≡ err (validation_error field (too_long n (length v)))))
      ⊎ (IsStorable n v
          × (is_empty (trim v) ≡ true)
          × (required_text field v n ≡ err (validation_error field required)))
      ⊎ (IsStorable n v × (is_empty (trim v) ≡ false) × (required_text field v n ≡ ok (trim v)))
unfolding required_text
required_text_outcomes field v n = ground arith

-- A value that `RequiredText::new` accepts is stored without NUL, within the limit, trimmed and not
-- blank; and it is accepted again unchanged, under any field name.
pub required_text-IsNormal :
    (field again : String) (v : Text) (n : ℕ) {t : Text}
    → required_text field v n ≡ ok t
    → IsNormal n t × (required_text again t n ≡ ok t)
required_text-IsNormal field again v n {t} h =
    let (s, e, filled) = required_text-ok field v n h in
    let storable : IsStorable n (trim v) = record {
      no_nul = any-trim (λ c. nat_beq c 0) v s.no_nul;
      fits = omega (arith, length-trim v, s.fits);
    } in
    let normal : IsNormal n t =
      rw (← e) (record { storable = storable; trimmed = trim_idem v; filled = rw e filled }) in
    (
      normal,
      required_text_of_IsStorable again t n normal.storable (rw normal.trimmed normal.filled)
          ∙ ap ok normal.trimmed,
    )
