-- ===== src/Text/Laws.antt =====
-- Laws of the text operations: trimming, lengths and splitting.
use silicon_commit.Base.{
  ℕ, ◌≤◌, ◌≡◌, refl, ap, Bool, true, false, not, ◌&&◌, [], ◌∷◌, arith, Bool-cases, inl, inr,
  is_empty, any, length, any, or_false,
}
use silicon_commit.Text.{Text, is_whitespace, trim_start, trim_end, trim}

length-trim_start : (s : Text) → length (trim_start s) ≤ length s
unfolding trim_start
length-trim_start [] = omega arith
length-trim_start (c ∷ s) = elim (Bool-cases (is_whitespace c)) [
  | inl h ↦ rw h (omega (arith, length-trim_start s))
  | inr h ↦ rw h (omega arith)
]

length-trim_end : (s : Text) → length (trim_end s) ≤ length s
unfolding trim_end
length-trim_end [] = omega arith
length-trim_end (c ∷ s) = elim (Bool-cases (is_empty (trim_end s) && is_whitespace c)) [
  | inl h ↦ rw h (omega arith)
  | inr h ↦ rw h (omega (arith, length-trim_end s))
]

-- Trimming never makes a text longer.
pub length-trim : (s : Text) → length (trim s) ≤ length s
unfolding trim
length-trim s = omega (arith, length-trim_end (trim_start s), length-trim_start s)

trim_end_idem : (s : Text) → trim_end (trim_end s) ≡ trim_end s
unfolding trim_end
trim_end_idem [] = refl
trim_end_idem (c ∷ s) = elim (Bool-cases (is_empty (trim_end s) && is_whitespace c)) [
  | inl h ↦ rw h
  | inr h ↦ rw h (rw (trim_end_idem s) (rw h))
]

starts_plain : Text → Bool
unfolding is_whitespace
starts_plain [] = true
starts_plain (c ∷ s) = not (is_whitespace c)

trim_start-starts_plain : (s : Text) → starts_plain (trim_start s) ≡ true
unfolding trim_start starts_plain
trim_start-starts_plain [] = refl
trim_start-starts_plain (c ∷ s) = elim (Bool-cases (is_whitespace c)) [
  | inl h ↦ rw h (trim_start-starts_plain s)
  | inr h ↦ rw h (rw h refl)
]

trim_end-starts_plain : (s : Text) → starts_plain s ≡ true → starts_plain (trim_end s) ≡ true
unfolding trim_end starts_plain
trim_end-starts_plain [] h = refl
trim_end-starts_plain (c ∷ s) h = elim (Bool-cases (is_empty (trim_end s) && is_whitespace c)) [
  | inl e ↦ rw e refl
  | inr e ↦ rw e h
]

trim_start_of_plain : (s : Text) → starts_plain s ≡ true → trim_start s ≡ s
unfolding trim_start starts_plain
trim_start_of_plain [] h = refl
trim_start_of_plain (c ∷ s) h = elim (Bool-cases (is_whitespace c)) [
  | inl e ↦ absurd (cc (ap not e))
  | inr e ↦ rw e
]

-- A trimmed text is left alone by a second trim.
pub trim_idem : (s : Text) → trim (trim s) ≡ trim s
unfolding trim
trim_idem s =
    rw (trim_start_of_plain _ (trim_end-starts_plain (trim_start s) (trim_start-starts_plain s)))
      (trim_end_idem (trim_start s))

module _ (p : ℕ → Bool) where
  any-trim_start : (s : Text) → any p s ≡ false → any p (trim_start s) ≡ false
  unfolding trim_start
  any-trim_start [] h = h
  any-trim_start (c ∷ s) h = elim (Bool-cases (is_whitespace c)) [
    | inl e ↦ rw e (any-trim_start s (or_false (p c) (any p s) h).1)
    | inr e ↦ rw e h
  ]

  any-trim_end : (s : Text) → any p s ≡ false → any p (trim_end s) ≡ false
  unfolding trim_end
  any-trim_end [] h = h
  any-trim_end (c ∷ s) h = elim (Bool-cases (is_empty (trim_end s) && is_whitespace c)) [
    | inl e ↦ rw e refl
    | inr e ↦ let both = or_false (p c) (any p s) h in rw (e, both.0) (any-trim_end s both.1)
  ]

  -- No character that a text lacks appears by trimming it.
  pub any-trim : (s : Text) → any p s ≡ false → any p (trim s) ≡ false
  unfolding trim
  any-trim s h = any-trim_end (trim_start s) (any-trim_start s h)
