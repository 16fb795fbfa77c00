-- ===== src/Domain/Pagination/Laws.antt =====
-- Cursors survive the wire.
use silicon_commit.Base.{
  ℕ, ◌≤◌, ◌≡◌, ap, subst, sym, ◌∙◌, ◌↔◌, false, not, ◌||◌, List, some, is_empty, ltb, nat_beq, ◌!=◌,
  list_eq, nat_eq, ok, arith, bind-ok, fail_if, ok_or, list_beq_iff, beq_refl,
}
use silicon_commit.Text.{Text, byte_len}
use silicon_commit.Domain.Pagination.{
  page_limit, malformed, unsupported_version, PageCursor, CursorPayload, CursorCodec, encode,
  decode,
}

-- What the codecs document: reading undoes writing.
pub record CodecLaws (codec : CursorCodec) : Type 0 where
  pub json :
      (payload : CursorPayload) (bytes : List ℕ)
      → codec.to_json payload ≡ some bytes
      → codec.from_json bytes ≡ some payload
  pub base64 : (bytes : List ℕ) → codec.from_base64 (codec.to_base64 bytes) ≡ some bytes

read_version :
    (codec : CursorCodec) (p : CursorPayload) {json : List ℕ}
    → p.version ≡ 1
    → codec.to_json p ≡ some json
    → codec.to_json (record { version = 1; created_at = p.created_at; id = p.id }) ≡ some json
read_version codec p v h =
    ap (λ n. codec.to_json (record { version = n; created_at = p.created_at; id = p.id })) (sym v)
    ∙ h

-- A text that is decoded is the canonical one: its cursor is encoded as that text.
pub encode-decode :
    (codec : CursorCodec) (text : Text) {cursor : PageCursor}
    → decode codec text ≡ ok cursor
    → encode codec cursor ≡ ok text
unfolding encode decode
encode-decode codec text {cursor} h =
    let (_, _, h1) = bind-ok (fail_if (is_empty text || ltb 1024 (byte_len text)) malformed) _ h in
    let (json, _, h2) = bind-ok (ok_or (codec.from_base64 text) malformed) _ h1 in
    let (payload, _, h3) = bind-ok (ok_or (codec.from_json json) malformed) _ h2 in
    let (_, h4, h5) =
      bind-ok (fail_if (not (nat_beq payload.version 1)) unsupported_version) _ h3 in
    let (again, h6, h7) = bind-ok (ok_or (codec.to_json payload) malformed) _ h5 in
    let (_, h8, h9) = bind-ok (fail_if (codec.to_base64 again != text) malformed) _ h7 in
    let v : payload.version ≡ 1 = ground arith in
    let t : codec.to_base64 again ≡ text =
      ground (arith, list_beq_iff (codec.to_base64 again) text) in
    let c : record { created_at = payload.created_at; id = payload.id } ≡ cursor = cc h9 in
    let w : codec.to_json (record { version = 1; created_at = payload.created_at; id = payload.id })
        ≡ some again =
      read_version codec payload v (ground arith) in
    subst (λ c. encode codec c ≡ ok text) c (rw w (ap ok t))

-- A text of an accepted length that a cursor is written as
decode_of_written :
    (codec : CursorCodec)
    → CodecLaws codec
    → (cursor : PageCursor) (text : Text) → encode codec cursor ≡ ok text
    → (is_empty text || ltb 1024 (byte_len text)) ≡ false
    → decode codec text ≡ ok cursor
unfolding encode decode
decode_of_written codec laws cursor text h fits =
    let payload : CursorPayload = record {
      version = 1;
      created_at = cursor.created_at;
      id = cursor.id;
    } in
    let (json, h0, h1) = bind-ok (ok_or (codec.to_json payload) malformed) _ h in
    let written : codec.to_json payload ≡ some json = ground arith in
    let text_is : codec.to_base64 json ≡ text = cc h1 in
    let short : (is_empty (codec.to_base64 json) || ltb 1024 (byte_len (codec.to_base64 json)))
        ≡ false =
      ap (λ t. is_empty t || ltb 1024 (byte_len t)) text_is ∙ fits in
    rw (← text_is) (
      rw
        (
          short,
          laws.base64 json,
          laws.json payload json written,
          written,
          beq_refl (codec.to_base64 json),
        )
        (ground arith))

decode_fits :
    (codec : CursorCodec) (text : Text) {cursor : PageCursor}
    → decode codec text ≡ ok cursor
    → (is_empty text || ltb 1024 (byte_len text)) ≡ false
unfolding decode
decode_fits codec text h =
    let (_, k, _) = bind-ok (fail_if (is_empty text || ltb 1024 (byte_len text)) malformed) _ h in
    ground arith

-- Under codecs whose readers and writers undo each other, a text is read as a cursor exactly if
-- that cursor is written as this text, and the text is not empty and takes at most 1024 bytes.
pub decode_iff :
    (codec : CursorCodec)
    → CodecLaws codec
    → (text : Text) (cursor : PageCursor)
    → (decode codec text ≡ ok cursor)
      ↔ ((encode codec cursor ≡ ok text) × (is_empty text ≡ false) × (byte_len text ≤ 1024))
decode_iff codec laws text cursor = (
  λ h.
      let fits = decode_fits codec text h in
      (encode-decode codec text h, ground arith, ground arith),
  λ k. decode_of_written codec laws cursor text k.0 (ground arith),
)

page_limit_iff : (n : ℕ) → (page_limit n ≡ ok n) ↔ ((1 ≤ n) × (n ≤ 100))
unfolding page_limit
page_limit_iff n = ground arith
