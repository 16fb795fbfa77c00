-- ===== src/Application/Idempotency.antt =====
-- src/application/idempotency.rs: the caller's key, and the bytes that a request's fingerprint hashes.
-- SHA-256 and the JSON serializer are outside: the request body is given as its bytes.
pub mod Framing
use silicon_commit.Base.{
  ℕ, zero, suc, ◌/◌, ◌%◌, min, Bool, not, ◌&&◌, ◌||◌, List, [], ◌∷◌, ◌++◌, length, all, ltb, leb,
  Result, ok, err, fail_if, ◌>>=◌, ◌>>◌,
}
use silicon_commit.Text.{Text, byte_len}

pub data IdempotencyKeyError : Type 0 where
  bad_length bad_characters : IdempotencyKeyError

abbrev pub IdempotencyKey : Type 0
IdempotencyKey = Text

-- `IdempotencyKey::new`: the bytes of a text are visible ASCII exactly when its characters are.
unfoldable pub idempotency_key : Text → Result IdempotencyKey IdempotencyKeyError
idempotency_key text = do
  fail_if (not (leb 8 (byte_len text) && leb (byte_len text) 255)) bad_length
  fail_if (not (all (λ c. leb 33 c && leb c 126) text)) bad_characters
  ok text

-- The last `w` bytes of a number, the highest first
unfoldable pub be_bytes : ℕ → ℕ → List ℕ
be_bytes zero n = []
be_bytes (suc w) n = be_bytes w (n / 256) ++ n % 256 ∷ []

-- `append_framed`: the bytes that it gives the hasher
unfoldable pub framed : List ℕ → List ℕ
unfolding be_bytes
framed bytes = be_bytes 8 (min (length bytes) 18446744073709551615) ++ bytes

-- What `RequestFingerprint::calculate` hashes
unfoldable pub fingerprint_input : List ℕ → List ℕ → List ℕ → List ℕ
unfolding framed
fingerprint_input operation resource_path body =
    framed operation ++ (framed resource_path ++ framed body)
