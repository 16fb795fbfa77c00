-- ===== src/Application/Idempotency/Framing.antt =====
-- The bytes that are hashed determine the request.
use silicon_commit.Base.{
  append_nil, append_assoc, ℕ, zero, suc, ◌/◌, ◌%◌, ◌^◌, min, ◌<◌, ◌≡◌, refl, sym, ◌∙◌, List, [],
  ◌∷◌, ◌++◌, length, arith, length-append,
}
use silicon_commit.Application.Idempotency.{be_bytes, framed, fingerprint_input}

append-inj :
    (xs ys us vs : List ℕ) → length xs ≡ length ys → xs ++ us ≡ ys ++ vs → (xs ≡ ys) × (us ≡ vs)
append-inj [] [] us vs l h = (refl, h)
append-inj [] (y ∷ ys) us vs l h = absurd (omega arith)
append-inj (x ∷ xs) [] us vs l h = absurd (omega arith)
append-inj (x ∷ xs) (y ∷ ys) us vs l h =
    let head : x ≡ y = cc h in
    let tail : xs ++ us ≡ ys ++ vs = cc h in
    let (e, f) = append-inj xs ys us vs (omega arith) tail in (cc (head, e), f)

length-be_bytes : (w n : ℕ) → length (be_bytes w n) ≡ w
unfolding be_bytes
length-be_bytes zero n = refl
length-be_bytes (suc w) n =
    omega (arith, length-append (be_bytes w (n / 256)) (n % 256 ∷ []), length-be_bytes w (n / 256))

-- Numbers that fit `w` bytes are told apart by them.
pub be_bytes-inj : (w n m : ℕ) → n < 256 ^ w → m < 256 ^ w → be_bytes w n ≡ be_bytes w m → n ≡ m
unfolding be_bytes
be_bytes-inj zero n m a b h = omega (arith, a, b)
be_bytes-inj (suc w) n m a b h =
    let l : length (be_bytes w (n / 256)) ≡ length (be_bytes w (m / 256)) =
      length-be_bytes w (n / 256) ∙ sym (length-be_bytes w (m / 256)) in
    let (e, f) = append-inj (be_bytes w (n / 256)) (be_bytes w (m / 256)) _ _ l h in
    let low : n % 256 ≡ m % 256 = cc f in
    let high = be_bytes-inj w (n / 256) (m / 256) (omega (arith, a)) (omega (arith, b)) e in
    omega (arith, low, high)

framed-append :
    (xs ys us vs : List ℕ)
    → length xs < 2 ^ 64
    → length ys < 2 ^ 64
    → framed xs ++ us ≡ framed ys ++ vs
    → (xs ≡ ys) × (us ≡ vs)
unfolding framed
framed-append xs ys us vs a b h =
    let n = min (length xs) 18446744073709551615 in
    let m = min (length ys) 18446744073709551615 in
    let h' : be_bytes 8 n ++ (xs ++ us) ≡ be_bytes 8 m ++ (ys ++ vs) =
      sym (append_assoc (be_bytes 8 n) xs us) ∙ h ∙ append_assoc (be_bytes 8 m) ys vs in
    let (e, f) =
      append-inj (be_bytes 8 n) (be_bytes 8 m) (xs ++ us) (ys ++ vs)
        (length-be_bytes 8 n ∙ sym (length-be_bytes 8 m)) h' in
    let same = be_bytes-inj 8 n m (omega arith) (omega arith) e in
    append-inj xs ys us vs (omega (arith, same, a, b)) f

-- The bytes that are hashed determine the request: equal inputs of the fingerprint come from the
-- same operation, the same path and the same body, each shorter than 2^64 bytes.
pub fingerprint_input-inj :
    (op path body op' path' body' : List ℕ)
    → length op < 2 ^ 64
    → length path < 2 ^ 64
    → length body < 2 ^ 64
    → length op' < 2 ^ 64
    → length path' < 2 ^ 64
    → length body' < 2 ^ 64
    → fingerprint_input op path body ≡ fingerprint_input op' path' body'
    → (op ≡ op') × (path ≡ path') × (body ≡ body')
unfolding fingerprint_input
fingerprint_input-inj op path body op' path' body' a b c a' b' c' h =
    let (e, h1) =
      framed-append op op' (framed path ++ framed body) (framed path' ++ framed body') a a' h in
    let (f, h2) = framed-append path path' (framed body) (framed body') b b' h1 in
    let (g, _) =
      framed-append body body' [] [] c c'
        (append_nil (framed body) ∙ h2 ∙ sym (append_nil (framed body'))) in
    (e, f, g)
