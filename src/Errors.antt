-- ===== src/Errors.antt =====
-- errors.go: the errors that travel on the wire. Headers and Extra are left out.
use openresponses.Prelude.{
  ℕ, String, str_eq, ◌==◌, ltb, if◌then◌else◌, Bool, true, false, not, ◌&&◌, ◌||◌, Option, none,
  some,
}
use openresponses.Response.{ErrorPayload}
pub mod Quota
pub mod Status

-- `Error`; an error type is its string.
pub record Error : Type 0 where
  pub status_code : ℕ
  pub type : String
  pub code : String
  pub message : String
  pub param : String

-- `ErrorType.HTTPStatus`.
unfoldable pub http_status : String → ℕ
http_status t =
    if str_eq t "invalid_request" || str_eq t "invalid_request_error"
    then 400
    else if str_eq t "not_found"
    then 404
    else if str_eq t "too_many_requests"
    then 429
    else 500

-- `ErrorTypeForStatus`.
unfoldable pub error_type_for_status : ℕ → String
error_type_for_status status =
    if status == 404
    then "not_found"
    else if status == 429
    then "too_many_requests"
    else if status == 408
    then "server_error"
    else if not (ltb status 400) && ltb status 500
    then "invalid_request"
    else "server_error"

-- `Error.HTTPStatus`.
unfoldable pub error_status : Error → ℕ
error_status e = if e.status_code == 0 then http_status e.type else e.status_code

-- `Error.Payload`.
unfoldable pub payload : Error → ErrorPayload
payload e = record {
  type = if str_eq e.type "" then "server_error" else e.type;
  code = e.code;
  message = e.message;
  param = e.param;
}

abbrev pub registered_code : String → Bool
registered_code code = str_eq code "context_length_exceeded" || str_eq code "insufficient_quota"

abbrev pub typed_quota : String → String → String
typed_quota code type =
    if str_eq code "" && str_eq type "insufficient_quota" then "insufficient_quota" else code

abbrev pub payment_required : ℕ → String → String
payment_required status code =
    if status == 402 && not (registered_code code) then "insufficient_quota" else code

abbrev pub quota_type : String → String → String
quota_type code type = if str_eq code "insufficient_quota" then "invalid_request" else type

-- `quota`.
unfoldable pub quota : ℕ → String → String → String × String
quota status code type =
    let c = payment_required status (typed_quota code type) in (c, quota_type c type)

abbrev read_quota : Error → Error
read_quota e = record e {
  code = (quota e.status_code e.code e.type).0;
  type = (quota e.status_code e.code e.type).1;
}

-- `ErrorPayload.Err`.
unfoldable pub err : ErrorPayload → ℕ → Error
err p status = read_quota (record {
  status_code = status;
  type = p.type;
  code = p.code;
  message = p.message;
  param = p.param;
})

-- `Error.Is`, for a target that is an `*Error`.
unfoldable pub is_target : Error → Error → Bool
is_target e t =
    not (not (str_eq t.type "") && not (str_eq t.type e.type))
    && (not (not (str_eq t.code "") && not (str_eq t.code e.code))
        && not (not (t.status_code == 0) && not (t.status_code == error_status e)))

abbrev target : String → String → Error
target type code = record { status_code = 0; type = type; code = code; message = ""; param = "" }

-- `IsRateLimited`.
unfoldable pub is_rate_limited : Error → Bool
is_rate_limited e = is_target e (target "too_many_requests" "")

-- `IsInvalidRequest`.
unfoldable pub is_invalid_request : Error → Bool
is_invalid_request e = is_target e (target "invalid_request" "")

-- `IsInsufficientQuota`.
unfoldable pub is_insufficient_quota : Error → Bool
is_insufficient_quota e = is_target e (target "" "insufficient_quota")

-- An error of the program: an `*Error`, one that has an HTTP status, or any other, with its text.
pub data AnyError : Type 0 where
  protocol_error : Error → AnyError
  status_error : ℕ → String → AnyError
  other_error : String → AnyError

abbrev pub internal : ℕ → String → String → Error
internal status type message = record {
  status_code = status;
  type = type;
  code = "internal_error";
  message = message;
  param = "";
}

abbrev pub type_of_status : ℕ → String
type_of_status status =
    if status == 400
    then "invalid_request"
    else if status == 404
    then "not_found"
    else if status == 429
    then "too_many_requests"
    else "server_error"

-- `AsError`.
unfoldable pub as_error : AnyError → Error
as_error (AnyError.protocol_error e) = e
as_error (AnyError.status_error status message) = internal status (type_of_status status) message
as_error (AnyError.other_error message) = internal 0 "server_error" message
