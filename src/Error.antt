-- ===== src/Error.antt =====
-- src/error.rs: application errors and the HTTP status that each has. Messages and response bodies
-- are left out; an error is its case and its public code.
use silicon_commit.Base.{ℕ, String, Result}
use silicon_commit.Domain.Validation.{ValidationError}

pub data AppError : Type 0 where
  bad_request : (code : String) → AppError
  invalid : (code : String) → AppError
  validation : ValidationError → AppError
  unauthenticated : AppError
  authentication : (code : String) → AppError
  forbidden : AppError
  denied : (code : String) → AppError
  not_found : AppError
  conflict : (code : String) → AppError
  precondition_required : AppError
  rate_limited : (retry_after_seconds : ℕ) → AppError
  timeout : AppError
  payload_too_large : AppError
  method_not_allowed : AppError
  bad_gateway : AppError
  provider_unavailable : AppError
  internal : (reason : String) → AppError

abbrev pub Fallible {ℓ} : Type ℓ → Type ℓ
Fallible A = Result A AppError

-- The status and the code of `AppError::public_parts`
unfoldable pub public_parts : AppError → ℕ × String
public_parts (bad_request code) = (400, code)
public_parts (invalid code) = (400, code)
public_parts (validation e) = (422, "validation_failed")
public_parts unauthenticated = (401, "unauthenticated")
public_parts (authentication code) = (401, code)
public_parts forbidden = (403, "forbidden")
public_parts (denied code) = (403, code)
public_parts not_found = (404, "not_found")
public_parts (conflict code) = (409, code)
public_parts precondition_required = (428, "precondition_required")
public_parts (rate_limited seconds) = (429, "rate_limited")
public_parts timeout = (408, "request_timeout")
public_parts payload_too_large = (413, "payload_too_large")
public_parts method_not_allowed = (405, "method_not_allowed")
public_parts bad_gateway = (502, "invalid_provider_response")
public_parts provider_unavailable = (503, "provider_unavailable")
public_parts (internal reason) = (500, "internal_error")
