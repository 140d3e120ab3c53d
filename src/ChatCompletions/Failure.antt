-- ===== src/ChatCompletions/Failure.antt =====
-- chatcompletions/response.go, `apiError`: the upstream's error envelope, and the error that it maps
-- to, less its Extra and headers.
use openresponses.Prelude.{
  ℕ, String, str_eq, str_append, ◌==◌, ltb, if◌then◌else◌, Bool, true, false, not, ◌&&◌, ◌||◌,
  Option, none, some, List, [], ◌∷◌, ℤ, pos,
}
use openresponses.Int64.{ltb_ℤ, sub64}
use openresponses.Errors.{Error, error_type_for_status}
use openresponses.ChatCompletions.Chunk.{ApiError, Code}

-- `Itoa`, `Atoi`, `ToLower`, and `FindStringSubmatch` less its first entry, which is the whole match.
pub record Texts : Type 0 where
  pub itoa : ℤ → String
  pub atoi : String → Option ℤ
  pub to_lower : String → String
  pub groups : String → String → List String

abbrev pub starts_with : String → String → Bool
starts_with String.[] s = true
starts_with (String.◌∷◌ c p) String.[] = false
starts_with (String.◌∷◌ c p) (String.◌∷◌ d s) =
    str_eq (String.◌∷◌ c String.[]) (String.◌∷◌ d String.[]) && starts_with p s

-- `strings.Contains(s, p)`.
unfoldable pub contains : String → String → Bool
contains String.[] p = starts_with p String.[]
contains (String.◌∷◌ c s) p = starts_with p (String.◌∷◌ c s) || contains s p

-- `errorStatus`.
unfoldable pub error_status : String → ℕ
error_status c =
    if str_eq c "invalid_request_error" || str_eq c "context_length_exceeded"
    then 400
    else if str_eq c "authentication_error" || str_eq c "invalid_api_key"
    then 401
    else if str_eq c "permission_error" || str_eq c "permission_denied"
    then 403
    else if str_eq c "not_found_error" || str_eq c "model_not_found"
    then 404
    else if str_eq c "rate_limit_error"
        || str_eq c "rate_limit_exceeded"
        || str_eq c "insufficient_quota"
    then 429
    else if str_eq c "overloaded_error"
    then 529
    else if str_eq c "server_error" || str_eq c "api_error"
    then 500
    else 0

-- `overflowMessages`.
abbrev pub overflow_messages : List String
overflow_messages =
    "maximum context length" ∷ "exceeds the available context size" ∷ "too large for model with"
    ∷ "prompt is too long" ∷ "exceeds the maximum number of tokens allowed" ∷ []

abbrev pub window_count : String
window_count = "maximum context length is (\\d+)"

abbrev pub input_count : String
input_count = "(\\d+) input tokens|resulted in (\\d+) tokens|\\((\\d+) in the messages"

abbrev pub total_count : String
total_count = "requested (?:about )?(\\d+) tokens"

abbrev pub output_count : String
output_count = "(\\d+) in the (?:completion|output)"

-- `overflowStatus`.
unfoldable pub overflow_status : ℕ → Bool
overflow_status s = s == 0 || s == 400 || s == 413 || s == 422

module _ (t : Texts) where
  -- `apiError.code`; a number is truncated to an integer before.
  unfoldable pub code_of : Code → String
  code_of (Code.text s) = s
  code_of (Code.number n) = t.itoa n
  code_of Code.other = ""

  abbrev pub named_status : Option ℤ → String → String → ℕ
  named_status (some (pos n)) code type =
      if not (ltb n 400) && ltb n 600
      then n
      else if error_status code == 0
      then error_status type
      else error_status code
  named_status _ code type = if error_status code == 0 then error_status type else error_status code

  -- `apiError.status`.
  unfoldable pub status : ApiError → ℕ
  unfolding code_of error_status
  status e = named_status (t.atoi (code_of e.code)) (code_of e.code) e.type

  abbrev pub or_count : Option ℤ → Option ℤ → Option ℤ
  or_count (some n) _ = some n
  or_count none rest = rest

  unfoldable pub count_in : List String → Option ℤ
  count_in [] = none
  count_in (g ∷ gs) = or_count (t.atoi g) (count_in gs)

  -- `firstCount`.
  abbrev pub first_count : String → String → Option ℤ
  first_count re msg = count_in (t.groups re msg)

  abbrev pub by_total : ℤ → Option ℤ → Option Bool
  by_total window (some total) = some (ltb_ℤ window total)
  by_total window none = none

  abbrev pub by_input : ℤ → Option ℤ → Option ℤ → Option Bool
  by_input window (some input) total = some (ltb_ℤ window input)
  by_input window none total = by_total window total

  abbrev pub by_parts : ℤ → Option ℤ → Option ℤ → Option ℤ → Option Bool
  by_parts window (some total) (some output) input = some (ltb_ℤ window (sub64 total output))
  by_parts window total _ input = by_input window input total

  abbrev pub exceeds : Option ℤ → Option ℤ → Option ℤ → Option ℤ → Option Bool
  exceeds none total output input = none
  exceeds (some window) total output input = by_parts window total output input

  -- `inputExceeds`: `none` when it is not known.
  unfoldable pub input_exceeds : String → Option Bool
  unfolding count_in sub64
  input_exceeds msg =
      exceeds (first_count window_count msg) (first_count total_count msg)
        (first_count output_count msg) (first_count input_count msg)

  abbrev pub on_phrase : Option Bool → String → Bool
  on_phrase (some b) msg = b
  on_phrase none msg = not (contains msg "max_tokens") && not (contains msg "max_completion_tokens")

  -- The loop over the phrases.
  unfoldable pub refuses : List String → String → Bool
  unfolding contains input_exceeds
  refuses [] msg = false
  refuses (phrase ∷ rest) msg =
      if contains msg phrase then on_phrase (input_exceeds msg) msg else refuses rest msg

  -- `contextOverflow`.
  unfoldable pub context_overflow : ApiError → Bool
  unfolding code_of refuses
  context_overflow e =
      str_eq (code_of e.code) "context_length_exceeded"
      || str_eq e.type "exceed_context_size_error"
      || refuses overflow_messages (t.to_lower e.message)

  -- `insufficientQuota`.
  unfoldable pub insufficient_quota : ApiError → ℕ → Bool
  unfolding code_of
  insufficient_quota e s =
      (str_eq (code_of e.code) "insufficient_quota" || str_eq e.type "insufficient_quota")
      || (s == 402 && not (str_eq (code_of e.code) "context_length_exceeded"))

  abbrev pub first_nonempty : String → String → String
  first_nonempty a b = if str_eq a "" then b else a

  -- The code before the exceptions.
  abbrev pub plain_code : ApiError → ℕ → String
  plain_code e s =
      first_nonempty (first_nonempty (code_of e.code) e.type)
        (if s == 0 then "upstream_error" else str_append "http_" (t.itoa (pos s)))

  -- The code and the type.
  abbrev pub classify : Bool → Bool → ApiError → ℕ → String × String
  classify true _ e s = ("context_length_exceeded", "invalid_request")
  classify false true e s = ("insufficient_quota", "invalid_request")
  classify false false e s = (plain_code e s, error_type_for_status s)

  -- `NotFound` and `InvalidRequest` take the param, the other constructors do not.
  abbrev pub param_for : String → String → String
  param_for type param =
      if str_eq type "not_found" || str_eq type "invalid_request" then param else ""

  -- `toError`.
  unfoldable pub to_error : ApiError → ℕ → Error
  unfolding overflow_status context_overflow insufficient_quota code_of error_type_for_status
  to_error e s =
      let r = classify (overflow_status s && context_overflow e) (insufficient_quota e s) e s in
      record {
        status_code = s;
        type = r.1;
        code = r.0;
        message = e.message;
        param = param_for r.1 e.param;
      }
