-- ===== src/Text/Decimal.antt =====
-- `i128::to_string` and `str::parse::<i128>` on texts.
use silicon_commit.Base.{
  ℕ, zero, suc, ◌+◌, ◌-◌, ◌*◌, ◌/◌, ◌%◌, ◌^◌, ◌≤◌, ◌<◌, ◌≡◌, refl, ap, ◌∙◌, Bool, true, ◌&&◌, [],
  ◌∷◌, ◌++◌, Option, none, some, ltb, leb, nat_beq, if◌then◌else◌, ℤ, pos, negsuc, all, length,
  length-append, arith, Bool-cases, inl, inr,
}
use silicon_commit.Text.{Text}

abbrev pub is_ascii_digit : ℕ → Bool
is_ascii_digit c = leb b'0' c && leb c b'9'

-- The digits of a number that has at most as many as the fuel.
unfoldable pub digits : ℕ → ℕ → Text
digits zero n = []
digits (suc fuel) n =
    let rest = digits fuel (n / 10) in
    if ltb n 10 then (48 + n) ∷ [] else rest ++ (48 + n % 10) ∷ []

-- `i128::to_string`: a magnitude below 2^128 has at most 39 digits.
unfoldable pub int_to_string : ℤ → Text
int_to_string (pos n) = digits 39 n
int_to_string (negsuc n) = b'-' ∷ digits 39 (n + 1)

-- The value of a text of digits, read from the left
unfoldable pub digits_value : ℕ → Text → Option ℕ
digits_value acc [] = some acc
digits_value acc (c ∷ s) =
    let rest = digits_value (acc * 10 + (c - 48)) s in if is_ascii_digit c then rest else none

-- At least one digit, and a value in the range of the sign
unfoldable pub parse_magnitude : ℕ → Text → Option ℕ
parse_magnitude limit [] = none
parse_magnitude limit (c ∷ s) = elim (digits_value 0 (c ∷ s)) [
  | none ↦ none
  | some n ↦ if leb n limit then some n else none
]

abbrev negated : ℕ → ℤ
negated zero = pos 0
negated (suc n) = negsuc n

abbrev mapped : (ℕ → ℤ) → Option ℕ → Option ℤ
mapped f none = none
mapped f (some n) = some (f n)

-- `str::parse::<i128>`
unfoldable pub parse_i128 : Text → Option ℤ
unfolding parse_magnitude
parse_i128 [] = none
parse_i128 (c ∷ s) =
    if nat_beq c b'-'
    then mapped negated (parse_magnitude (2 ^ 127) s)
    else if nat_beq c b'+'
    then mapped pos (parse_magnitude (2 ^ 127 - 1) s)
    else mapped pos (parse_magnitude (2 ^ 127 - 1) (c ∷ s))

-- The integers of an `i128`
abbrev pub IsI128 : ℤ → Type 0
IsI128 (pos n) = n < 2 ^ 127
IsI128 (negsuc n) = n < 2 ^ 127

unfoldable pub pow10 : ℕ → ℕ
pow10 zero = 1
pow10 (suc f) = 10 * pow10 f

digits_value-append :
    (acc : ℕ) (s : Text) (c v : ℕ)
    → digits_value acc s ≡ some v
    → is_ascii_digit c ≡ true
    → digits_value acc (s ++ c ∷ []) ≡ some (v * 10 + (c - 48))
unfolding digits_value
digits_value-append acc [] c v h d = ground arith
digits_value-append acc (x ∷ s) c v h d =
    ground (arith, digits_value-append (acc * 10 + (x - 48)) s c v)

pub digits_value-digits : (f n : ℕ) → n < pow10 f → 0 < f → digits_value 0 (digits f n) ≡ some n
unfolding digits digits_value pow10
digits_value-digits zero n h p = absurd (omega arith)
digits_value-digits (suc zero) n h p = ground arith
digits_value-digits (suc (suc f)) n h p = elim (Bool-cases (ltb n 10)) [
  | inl small ↦ rw small (ground arith)
  | inr large ↦ rw large (
      digits_value-append 0 (digits (suc f) (n / 10)) (48 + n % 10) (n / 10)
        (digits_value-digits (suc f) (n / 10) (ground arith) (omega arith)) (ground arith)
      ∙ ap some (ground arith))
]

all-append : (p : ℕ → Bool) (s t : Text) → all p s ≡ true → all p t ≡ true → all p (s ++ t) ≡ true
all-append p [] t h k = k
all-append p (c ∷ s) t h k = ground (arith, all-append p s t)

pub digits-IsDigits : (f n : ℕ) → all is_ascii_digit (digits f n) ≡ true
unfolding digits
digits-IsDigits zero n = refl
digits-IsDigits (suc f) n = elim (Bool-cases (ltb n 10)) [
  | inl small ↦ rw small (ground arith)
  | inr large ↦ rw large (
      all-append is_ascii_digit (digits f (n / 10)) ((48 + n % 10) ∷ [])
        (digits-IsDigits f (n / 10)) (ground arith))
]

pub length-digits : (f n : ℕ) → length (digits f n) ≤ f
unfolding digits
length-digits zero n = omega arith
length-digits (suc f) n = elim (Bool-cases (ltb n 10)) [
  | inl small ↦ rw small (omega arith)
  | inr large ↦ rw large (
      omega
        (arith, length-append (digits f (n / 10)) ((48 + n % 10) ∷ []), length-digits f (n / 10)))
]

pub digits_filled : (f n : ℕ) → 0 < length (digits (suc f) n)
unfolding digits
digits_filled f n = elim (Bool-cases (ltb n 10)) [
  | inl small ↦ rw small (omega arith)
  | inr large ↦ rw large (omega (arith, length-append (digits f (n / 10)) ((48 + n % 10) ∷ [])))
]

pub parse_magnitude_of_value :
    (limit n : ℕ) (s : Text)
    → 0 < length s
    → digits_value 0 s ≡ some n
    → n ≤ limit
    → parse_magnitude limit s ≡ some n
unfolding parse_magnitude
parse_magnitude_of_value limit n [] p h l = absurd (omega arith)
parse_magnitude_of_value limit n (c ∷ s) p h l = ground (arith, h)

parse_unsigned :
    (n : ℕ) (s : Text)
    → all is_ascii_digit s ≡ true
    → parse_magnitude (2 ^ 127 - 1) s ≡ some n
    → parse_i128 s ≡ some (pos n)
unfolding parse_i128
parse_unsigned n [] d h = absurd (cc h)
parse_unsigned n (c ∷ s) d h = ground arith

-- An integer of an `i128` is read back from its digits.
pub parse_i128-int_to_string : (z : ℤ) → IsI128 z → parse_i128 (int_to_string z) ≡ some z
unfolding int_to_string parse_i128 pow10
parse_i128-int_to_string (pos n) h = parse_unsigned n (digits 39 n) (digits-IsDigits 39 n) (
    parse_magnitude_of_value (2 ^ 127 - 1) n (digits 39 n) (digits_filled 38 n)
      (digits_value-digits 39 n (omega arith) (omega arith)) (omega arith))
parse_i128-int_to_string (negsuc n) h =
    ap (mapped negated) (
      parse_magnitude_of_value (2 ^ 127) (n + 1) (digits 39 (n + 1)) (digits_filled 38 (n + 1))
        (digits_value-digits 39 (n + 1) (omega arith) (omega arith)) (omega arith))
    ∙ ground arith
