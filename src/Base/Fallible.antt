-- ===== src/Base/Fallible.antt =====
-- Rust's `Result`, with `?` as the bind of a `do` block.
use mathlib.Core.Path.{◌≡◌, refl}
use mathlib.Core.Bool.{Bool, true, false}
use mathlib.Core.Logic.{◌⊎◌, inl, inr}
use mathlib.Core.Option.{Option, none, some}

pub data Result {ℓ κ} (A : Type ℓ) (E : Type κ) : Type (ℓ ⊔ κ) where
  ok : A → Result A E
  err : E → Result A E

infixl 5 ◌>>=◌ ◌>>◌
abbrev pub ◌>>=◌ {ℓ κ ν} :
    {A : Type ℓ} {B : Type κ} {E : Type ν} → Result A E → (A → Result B E) → Result B E
ok a >>= f = f a
err e >>= f = err e

abbrev pub ◌>>◌ {ℓ ν} : {B : Type ℓ} {E : Type ν} → Result (Unit {0}) E → Result B E → Result B E
m >> k = m >>= λ _. k

-- `if b { return Err(e) }`
abbrev pub fail_if {ν} : {E : Type ν} → Bool → E → Result (Unit {0}) E
fail_if true e = err e
fail_if false e = ok tt

-- `Result::map_err`
abbrev pub map_err {ℓ κ ν} :
    {A : Type ℓ} {E : Type κ} {F : Type ν} → (E → F) → Result A E → Result A F
map_err f (ok a) = ok a
map_err f (err e) = err (f e)

-- `Option::ok_or`
abbrev pub ok_or {ℓ ν} : {A : Type ℓ} {E : Type ν} → Option A → E → Result A E
ok_or none e = err e
ok_or (some a) e = ok a

-- `option.map(f).transpose()` for a fallible `f`
abbrev pub traverse {ℓ κ ν} :
    {A : Type ℓ} {B : Type κ} {E : Type ν} → (A → Result B E) → Option A → Result (Option B) E
traverse f none = ok none
traverse f (some a) = f a >>= λ b. ok (some b)

-- `Result::is_ok`
abbrev pub is_ok {ℓ ν} : {A : Type ℓ} {E : Type ν} → Result A E → Bool
is_ok (ok a) = true
is_ok (err e) = false

pub bind-ok {ℓ κ ν} :
    {A : Type ℓ} {B : Type κ} {E : Type ν} (m : Result A E) (f : A → Result B E) {b : B}
    → (m >>= f) ≡ ok b
    → (a : A) × (m ≡ ok a) × (f a ≡ ok b)
bind-ok (ok a) f h = (a, refl, h)
bind-ok (err e) f h = cc

-- What holds of the value of an option, if it has one.
abbrev pub OnSome {ℓ κ} : {A : Type ℓ} → (A → Type κ) → Option A → Type κ
OnSome P none = Unit
OnSome P (some a) = P a

-- A fallible map over an option succeeds on every value that it meets.
pub traverse-ok {ℓ κ ν} :
    {A : Type ℓ} {B : Type κ} {E : Type ν} (f : A → Result B E) (o : Option A) {p : Option B}
    → traverse f o ≡ ok p
    → ((o ≡ none) × (p ≡ none)) ⊎ ((a : A) × (b : B) × (o ≡ some a) × (p ≡ some b) × (f a ≡ ok b))
traverse-ok f none h = inl (refl, cc)
traverse-ok f (some a) h = let (b, e, k) = bind-ok (f a) _ h in inr (a, b, refl, cc, e)

-- A guard that passes did not hold.
pub fail_if-ok {ν} : {E : Type ν} (b : Bool) (e : E) {u : Unit {0}} → fail_if b e ≡ ok u → b ≡ false
fail_if-ok true e h = absurd (cc h)
fail_if-ok false e h = refl

pub ok_inj {ℓ ν} : {A : Type ℓ} {E : Type ν} (a b : A) → ◌≡◌ {A = Result A E} (ok a) (ok b) → a ≡ b
ok_inj a b h = cc h

pub ok_or-ok {ℓ ν} :
    {A : Type ℓ} {E : Type ν} (o : Option A) (e : E) {a : A} → ok_or o e ≡ ok a → o ≡ some a
ok_or-ok none e h = absurd (cc h)
ok_or-ok (some b) e h = cc h

pub map_err-ok {ℓ κ ν} :
    {A : Type ℓ} {E : Type κ} {F : Type ν} (f : E → F) (r : Result A E) {a : A}
    → map_err f r ≡ ok a
    → r ≡ ok a
map_err-ok f (ok b) h = cc h
map_err-ok f (err e) h = absurd (cc h)
