-- ===== src/Domain/Project/Uid/Laws.antt =====
-- A generated project identifier is a valid one (src/domain/project.rs).
use silicon_commit.Base.{
  ℕ, ◌+◌, ◌*◌, ◌≤◌, ◌≡◌, refl, ap, Bool, true, false, [], ◌∷◌, ◌++◌, none, some, ok, nat_beq, any,
  all, length, arith, Bool-cases, inl, inr, and_true, ℤ, pos, negsuc, list_beq_iff, list_eq, nat_eq,
  nat_beq_iff,
}
use silicon_commit.Text.{Text, byte_len, split_once, rsplit_once}
use silicon_commit.Text.Decimal.{
  IsI128, int_to_string, digits, is_ascii_digit, digits-IsDigits, length-digits,
  parse_i128-int_to_string,
}
use silicon_commit.Domain.Ids.{ActorId}
use silicon_commit.Domain.Ids.Laws.{IsPublicId}
use silicon_commit.Domain.Project.Slug.{ProjectSlug, is_slug_character}
use silicon_commit.Domain.Project.Slug.Laws.{IsSlug, byte_len-simple, project_slug_of_IsSlug}
use silicon_commit.Domain.Project.Uid.{unix_millis, new_uid, project_uid}

abbrev has : ℕ → Text → Bool
has c s = any (λ d. nat_beq d c) s

pub split_once-append :
    (c : ℕ) (a b : Text) → has c a ≡ false → split_once c (a ++ c ∷ b) ≡ some (a, b)
unfolding split_once
split_once-append c [] b h = ground arith
split_once-append c (d ∷ a) b h = ground (arith, split_once-append c a b)

rsplit_once-none : (c : ℕ) (b : Text) → has c b ≡ false → rsplit_once c b ≡ none
unfolding rsplit_once
rsplit_once-none c [] h = refl
rsplit_once-none c (d ∷ b) h = ground (arith, rsplit_once-none c b)

pub rsplit_once-append :
    (c : ℕ) (a b : Text) → has c b ≡ false → rsplit_once c (a ++ c ∷ b) ≡ some (a, b)
unfolding rsplit_once
rsplit_once-append c [] b h = ground (arith, rsplit_once-none c b)
rsplit_once-append c (d ∷ a) b h = ground (arith, rsplit_once-append c a b)

has_of_all : (p : ℕ → Bool) (c : ℕ) (s : Text) → p c ≡ false → all p s ≡ true → has c s ≡ false
has_of_all p c [] k h = refl
has_of_all p c (d ∷ s) k h = elim (Bool-cases (nat_beq d c)) [
  | inl e ↦ absurd (cc ((and_true (p d) (all p s) h).0, ap p ((nat_beq_iff d c).0 e), k))
  | inr e ↦ rw e (has_of_all p c s k (and_true (p d) (all p s) h).1)
]

byte_len-append : (a b : Text) → byte_len (a ++ b) ≡ byte_len a + byte_len b
unfolding byte_len
byte_len-append [] b = omega arith
byte_len-append (c ∷ a) b = omega (arith, byte_len-append a b)

byte_len_le : (s : Text) → byte_len s ≤ 4 * length s
unfolding byte_len
byte_len_le [] = omega arith
byte_len_le (c ∷ s) = ground (arith, byte_len_le s)

has-append : (c : ℕ) (a b : Text) → has c a ≡ false → has c b ≡ false → has c (a ++ b) ≡ false
has-append c [] b h k = k
has-append c (d ∷ a) b h k = ground (arith, has-append c a b)

plain_digits : (f n : ℕ) → has b':' (digits f n) ≡ false
plain_digits f n = has_of_all is_ascii_digit b':' (digits f n) refl (digits-IsDigits f n)

int_to_string_plain :
    (z : ℤ) → (has b':' (int_to_string z) ≡ false) × (byte_len (int_to_string z) ≤ 160)
unfolding int_to_string
int_to_string_plain (pos n) =
    (plain_digits 39 n, omega (arith, byte_len_le (digits 39 n), length-digits 39 n))
int_to_string_plain (negsuc n) = (
  plain_digits 39 (n + 1),
  omega (arith, byte_len_le (b'-' ∷ digits 39 (n + 1)), length-digits 39 (n + 1)),
)

unix_millis-IsI128 : (t : ℤ) → IsI128 t → IsI128 (unix_millis t)
unix_millis-IsI128 (pos n) h = omega arith
unix_millis-IsI128 (negsuc n) h = omega arith

uid_fits :
    (slug : ProjectSlug) (creator : ActorId) (t : ℤ)
    → IsSlug slug
    → IsPublicId creator
    → byte_len (new_uid slug creator t) ≤ 2048
unfolding new_uid byte_len
uid_fits slug creator t s a = omega (
  arith,
  byte_len-append (slug ++ b':' ∷ creator) (b':' ∷ int_to_string (unix_millis t)),
  byte_len-append slug (b':' ∷ creator),
  byte_len-simple slug s.simple,
  s.fits,
  byte_len_le creator,
  a.bounded,
  (int_to_string_plain (unix_millis t)).1,
)

colon_outside : is_slug_character b':' ≡ false
unfolding is_slug_character
colon_outside = refl

-- The uid that is generated for a canonical slug, a public id in normal form and any time of
-- creation in nanoseconds of an `i128` is accepted by the parser, which keeps it; so it fits the
-- length limit although public ids may hold colons.
pub project_uid-new_uid :
    (slug : ProjectSlug) (creator : ActorId) (created_at : ℤ)
    → IsSlug slug
    → IsPublicId creator
    → IsI128 created_at
    → project_uid (new_uid slug creator created_at) ≡ ok (new_uid slug creator created_at)
unfolding project_uid
project_uid-new_uid slug creator created_at s a i =
    let z = unix_millis created_at in
    let outer : rsplit_once b':' (new_uid slug creator created_at)
        ≡ some (slug ++ b':' ∷ creator, int_to_string z) =
      unfold new_uid in rsplit_once-append b':' _ _ (int_to_string_plain z).0 in
    let inner : split_once b':' (slug ++ b':' ∷ creator) ≡ some (slug, creator) =
      split_once-append b':' slug creator
        (has_of_all is_slug_character b':' slug colon_outside s.simple) in
    ground (
      arith,
      outer,
      inner,
      project_slug_of_IsSlug slug s,
      parse_i128-int_to_string z (unix_millis-IsI128 created_at i),
      uid_fits slug creator created_at s a,
      list_beq_iff (int_to_string z) (int_to_string z),
      a.filled,
      a.visible,
    )
