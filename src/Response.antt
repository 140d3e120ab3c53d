-- ===== src/Response.antt =====
-- response.go: the response resource, and the three methods that end one.
use openresponses.Prelude.{ℕ, String, Bool, true, false, Option, some}
use openresponses.Item.{Items, Extra}

-- `ResponseStatus` of enums.go.
pub data ResponseStatus : Type 0 where
  unset queued in_progress completed incomplete failed : ResponseStatus
  other : String → ResponseStatus

unfoldable pub terminal : ResponseStatus → Bool
terminal ResponseStatus.completed = true
terminal ResponseStatus.incomplete = true
terminal ResponseStatus.failed = true
terminal _ = false

pub record ErrorPayload : Type 0 where
  pub type : String
  pub code : String
  pub message : String
  pub param : String

-- `rest` stands for the members that echo the request's settings, which the modelled code copies
-- and does not read; `usage` is carried as its JSON text.
pub record Response : Type 0 where
  pub id : String
  pub created_at : ℕ
  pub completed_at : Option ℕ
  pub status : ResponseStatus
  pub incomplete_details : Option String
  pub model : String
  pub previous_response_id : Option String
  pub output : Items
  pub error : Option ErrorPayload
  pub usage : Option String
  pub store : Bool
  pub rest : Extra

-- The clock is an argument: `now` is what `time.Now().Unix()` returns.
unfoldable pub complete_response : ℕ → Response → Response
complete_response now r = record r { status = ResponseStatus.completed; completed_at = some now }

unfoldable pub incomplete_response : ℕ → String → Response → Response
incomplete_response now reason r = record r {
  status = ResponseStatus.incomplete;
  incomplete_details = some reason;
  completed_at = some now;
}

-- `payload` is the payload of the error that `AsError` makes of the argument.
unfoldable pub fail_response : ErrorPayload → Response → Response
fail_response payload r = record r { status = ResponseStatus.failed; error = some payload }
