-- ===== src/Domain/Pagination.antt =====
-- src/domain/pagination.rs: page sizes, cursors and pages. The base64 and JSON codecs are the
-- parameter `CursorCodec`.
pub mod Laws
pub mod Keyset
use silicon_commit.Base.{
  ℕ, ◌+◌, ◌≤◌, ◌<◌, ◌≡◌, Bool, true, false, not, ◌&&◌, ◌||◌, List, [], ◌∷◌, Option, none, some,
  length, take, is_empty, ltb, leb, nat_beq, ◌==◌, ◌!=◌, list_eq, nat_eq, if◌then◌else◌, Result, ok,
  err, fail_if, map_err, ok_or, ◌>>=◌, ◌>>◌,
}
use silicon_commit.Text.{Text, byte_len}
use silicon_commit.Domain.Ids.{Uuid}
use silicon_commit.Domain.Todo.{Time}

abbrev pub max_page_limit : ℕ
max_page_limit = 100

abbrev pub PageLimit : Type 0
PageLimit = ℕ

pub data PageLimitError : Type 0 where
  page_limit_error : PageLimitError

-- `PageLimit::new`
unfoldable pub page_limit : ℕ → Result PageLimit PageLimitError
page_limit v = if nat_beq v 0 || ltb max_page_limit v then err page_limit_error else ok v

pub data CursorError : Type 0 where
  malformed unsupported_version : CursorError

pub record PageCursor : Type 0 where
  pub created_at : Time
  pub id : Uuid

pub record CursorPayload : Type 0 where
  pub version : ℕ
  pub created_at : Time
  pub id : Uuid

-- `serde_json` on a payload and `URL_SAFE_NO_PAD` on its bytes: writing may fail, and so may reading.
pub record CursorCodec : Type 0 where
  pub to_json : CursorPayload → Option (List ℕ)
  pub from_json : List ℕ → Option CursorPayload
  pub to_base64 : List ℕ → Text
  pub from_base64 : Text → Option (List ℕ)

-- `PageCursor::encode`
unfoldable pub encode : CursorCodec → PageCursor → Result Text CursorError
encode codec cursor = do
  json ←
      ok_or (codec.to_json (record { version = 1; created_at = cursor.created_at; id = cursor.id }))
        malformed
  ok (codec.to_base64 json)

-- `PageCursor::decode`
unfoldable pub decode : CursorCodec → Text → Result PageCursor CursorError
decode codec text = do
  fail_if (is_empty text || ltb 1024 (byte_len text)) malformed
  json ← ok_or (codec.from_base64 text) malformed
  payload ← ok_or (codec.from_json json) malformed
  fail_if (not (nat_beq payload.version 1)) unsupported_version
  again ← ok_or (codec.to_json payload) malformed
  fail_if (codec.to_base64 again != text) malformed
  ok (record { created_at = payload.created_at; id = payload.id })

pub record CreatedAtRange : Type 0 where
  pub from : Option Time
  pub to : Option Time

pub data InvalidDateRange : Type 0 where
  invalid_date_range : InvalidDateRange

-- `from.zip(to).is_some_and(|(from, to)| from > to)`
abbrev inverted : Option Time → Option Time → Bool
inverted (some from) (some to) = ltb to from
inverted (some from) none = false
inverted none to = false

-- `CreatedAtRange::new`
unfoldable pub created_at_range : Option Time → Option Time → Result CreatedAtRange InvalidDateRange
created_at_range from to = do
  fail_if (inverted from to) invalid_date_range
  ok (record { from = from; to = to })

pub record Page {ℓ} (T : Type ℓ) : Type ℓ where
  pub items : List T
  pub next_cursor : Option PageCursor

module _ {ℓ} {T : Type ℓ} where
  -- `items.last()`
  abbrev pub last : List T → Option T
  last [] = none
  last (x ∷ []) = some x
  last (x ∷ y ∷ ys) = last (y ∷ ys)

  -- `option.map(cursor)`
  abbrev pub cursor_of : (T → PageCursor) → Option T → Option PageCursor
  cursor_of cursor none = none
  cursor_of cursor (some x) = some (cursor x)

  -- `Page::from_window`
  unfoldable pub from_window : List T → PageLimit → (T → PageCursor) → Page T
  from_window items limit cursor =
      let has_more = ltb limit (length items) in
      let kept = if has_more then take limit items else items in
      record { items = kept; next_cursor = if has_more then cursor_of cursor (last kept) else none }
