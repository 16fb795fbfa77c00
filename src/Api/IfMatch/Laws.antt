-- ===== src/Api/IfMatch/Laws.antt =====
-- A client that sends the entity tag it got asks for the version it saw.
use silicon_commit.Base.{
  ℕ, zero, suc, ◌+◌, ◌-◌, ◌/◌, ◌%◌, ◌^◌, ◌≤◌, ◌<◌, ◌≡◌, refl, ◌∙◌, Bool, true, false, ◌&&◌, ◌||◌,
  [], ◌∷◌, ◌++◌, some, ok, err, ltb, nat_beq, if◌then◌else◌, ◌==◌, list_eq, nat_eq, list_beq, all,
  arith, Bool-cases, inl, inr, pos,
}
use silicon_commit.Text.{Text, chars, starts_with}
use silicon_commit.Text.Decimal.{
  is_ascii_digit, digits, int_to_string, parse_magnitude, digits_value, pow10, digits_value-digits,
  digits-IsDigits, digits_filled, parse_magnitude_of_value,
}
use silicon_commit.Domain.Attachment.{strip_prefix}
use silicon_commit.Domain.Project.Diary.{expected_diary_version}
use silicon_commit.Domain.Notification.Version.{expected_version, i64_max}
use silicon_commit.Api.IfMatch.{
  strip_last, parse_u64, is_positive, parse_strong_integer_etag, parse_notification_if_match,
  parse_if_match, etag, invalid_if_match,
}

strip_last-append : (q : ℕ) (s : Text) → strip_last q (s ++ q ∷ []) ≡ some s
unfolding strip_last
strip_last-append q [] = ground arith
strip_last-append q (c ∷ []) = ground arith
strip_last-append q (c ∷ d ∷ s) = rw (strip_last-append q (d ∷ s)) refl

is_positive-append :
    (s : Text) (c : ℕ)
    → is_positive s ≡ true
    → is_ascii_digit c ≡ true
    → is_positive (s ++ c ∷ []) ≡ true
unfolding is_positive
is_positive-append [] c h d = absurd (cc h)
is_positive-append (x ∷ s) c h d = ground (arith, all_last s c)
  where
    all_last :
        (t : Text) (e : ℕ)
        → all is_ascii_digit t ≡ true
        → is_ascii_digit e ≡ true
        → all is_ascii_digit (t ++ e ∷ []) ≡ true
    all_last [] e k l = ground arith
    all_last (y ∷ t) e k l = ground (arith, all_last t e)

-- The digits of a positive number have no leading zero.
is_positive-digits : (f n : ℕ) → 0 < n → n < pow10 f → is_positive (digits f n) ≡ true
unfolding is_positive digits pow10
is_positive-digits zero n p h = absurd (omega arith)
is_positive-digits (suc f) n p h = elim (Bool-cases (ltb n 10)) [
  | inl small ↦ rw small (ground arith)
  | inr large ↦ rw large (
      is_positive-append (digits f (n / 10)) (48 + n % 10)
        (is_positive-digits f (n / 10) (ground arith) (ground arith)) (ground arith))
]

parse_u64_unsigned :
    (s : Text) (n : ℕ)
    → all is_ascii_digit s ≡ true
    → parse_magnitude (2 ^ 64 - 1) s ≡ some n
    → parse_u64 s ≡ some n
unfolding parse_u64
parse_u64_unsigned [] n d h = absurd (unfold parse_magnitude in cc h)
parse_u64_unsigned (c ∷ s) n d h = ground arith

parse_u64-digits : (n : ℕ) → n < 2 ^ 64 → parse_u64 (digits 39 n) ≡ some n
unfolding pow10
parse_u64-digits n h = parse_u64_unsigned (digits 39 n) n (digits-IsDigits 39 n) (
    parse_magnitude_of_value (2 ^ 64 - 1) n (digits 39 n) (digits_filled 38 n)
      (digits_value-digits 39 n (omega arith) (omega arith)) (omega arith))

-- A tag whose digits are accepted
parse_strong_integer_etag-etag :
    (n : ℕ) (allow_zero : Bool)
    → n < 2 ^ 64
    → (is_positive (digits 39 n) || (allow_zero && digits 39 n == chars "0")) ≡ true
    → parse_strong_integer_etag (etag (pos n)) allow_zero ≡ ok n
unfolding parse_strong_integer_etag etag int_to_string starts_with strip_prefix list_beq
parse_strong_integer_etag-etag n allow_zero h k =
    rw (strip_last-append b'"' (digits 39 n)) (rw k (rw (parse_u64-digits n h) refl))

zero_tag : parse_if_match (etag (pos 0)) ≡ err invalid_if_match
unfolding parse_if_match parse_strong_integer_etag etag int_to_string digits starts_with
    strip_prefix strip_last is_positive list_beq
zero_tag = refl

positive_tag : (v : ℕ) → 0 < v → v ≤ i64_max → parse_if_match (etag (pos v)) ≡ ok v
unfolding parse_if_match expected_diary_version pow10
positive_tag v p h =
    rw
      (parse_strong_integer_etag-etag v false (omega arith)
        (ground (arith, is_positive-digits 39 v p (omega arith))))
      (ground arith)

zero_accepted : parse_strong_integer_etag (etag (pos 0)) true ≡ ok 0
unfolding parse_strong_integer_etag etag int_to_string digits starts_with strip_prefix strip_last
    is_positive list_beq parse_u64 parse_magnitude digits_value
zero_accepted = refl

notification_tag : (v : ℕ) → v ≤ i64_max → parse_notification_if_match (etag (pos v)) ≡ ok v
unfolding parse_notification_if_match expected_version pow10
notification_tag zero h = rw zero_accepted (ground arith)
notification_tag (suc v) h =
    rw
      (parse_strong_integer_etag-etag (suc v) true (omega arith)
        (ground (arith, is_positive-digits 39 (suc v) (omega arith) (omega arith))))
      (ground arith)

-- The entity tag of every version up to the maximum of an `i64` is read back from `If-Match` as
-- that version, for notification resources always, and for diaries unless the version is zero,
-- which is refused.
pub parse_if_match-etag :
    (v : ℕ)
    → v ≤ i64_max
    → (parse_notification_if_match (etag (pos v)) ≡ ok v)
      × (parse_if_match (etag (pos v)) ≡ (if nat_beq v 0 then err invalid_if_match else ok v))
parse_if_match-etag v h = (notification_tag v h, by_zero v h)
  where
    by_zero :
        (n : ℕ)
        → n ≤ i64_max
        → parse_if_match (etag (pos n)) ≡ (if nat_beq n 0 then err invalid_if_match else ok n)
    by_zero zero k = zero_tag
    by_zero (suc n) k = positive_tag (suc n) (omega arith) k ∙ ground arith
