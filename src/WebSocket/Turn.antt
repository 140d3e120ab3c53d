-- ===== src/WebSocket/Turn.antt =====
-- websocket/websocket.go: the state of a session and what its turns use: `session.writeError`, the
-- saves at the end of `session.turn`. The decoding of JSON, the validation of a request, the
-- adapter and the connection are parameters; the lifetime and the keepalive of a connection are
-- left out.
use openresponses.Prelude.{
  ℕ, String, str_eq, str_append, if◌then◌else◌, Bool, true, false, not, ◌&&◌, Option, none, some,
  List, [], ◌∷◌, ◌++◌,
}
use openresponses.Item.{Items}
use openresponses.Response.{Response}
use openresponses.Event.{StreamEvent}
use openresponses.EventSink.{sink_error, Act, ◌>>◌, skip, change}
use openresponses.Errors.{AnyError, as_error, error_status, payload}
use openresponses.Store.Memory.{MemoryStore, save, delete}
use openresponses.Store.Continuation.{Request, Continuation, Load, ResolveError, history}
use openresponses.Handler.History.{is_failed}
use openresponses.WebSocket.Sink.{ErrorFrame, Exchange}

pub data Decoded (A : Type 0) : Type 0 where
  invalid : String → Decoded A
  valid : A → Decoded A

-- A `json.RawMessage` is its text, and that of an absent field is empty.
pub record CreateFrame : Type 0 where
  pub type : String
  pub stream : String
  pub stream_options : String
  pub background : String

-- `stored` is `req.Stored()`.
pub record TurnRequest : Type 0 where
  pub request : Request
  pub stored : Bool

-- `ResponseStore`: `Load` and `Save`.
pub record ResponseStore (S : Type 0) : Type 0 where
  pub load : S → Load
  pub save : S → String → Items → S × Option AnyError

pub record Externals : Type 0 where
  pub head : String → Decoded CreateFrame
  pub request : String → Decoded TurnRequest
  pub validate : TurnRequest → Option AnyError
  pub resolve_error : ResolveError → AnyError
  pub quoted : String → String
  pub create_stream : TurnRequest → List StreamEvent × Option AnyError
  pub new_response : TurnRequest → Response
  pub now : ℕ
  pub encodes : StreamEvent → Bool
  pub takes_write : Exchange → Bool

pub data Message : Type 0 where
  text : String → Message
  binary : Message

-- The connection's memory, the state of the shared store, and what was written in this turn.
pub record Session (S : Type 0) : Type 0 where
  pub cache : MemoryStore
  pub shared : S
  pub exchange : Exchange

abbrev pub invalid_request : String → String → String → AnyError
invalid_request code message param = AnyError.protocol_error (record {
  status_code = 0;
  type = "invalid_request";
  code = code;
  message = message;
  param = param;
})

-- `fmt.Errorf("...: %w", err)`, as `AsError` sees it.
abbrev pub wrap : String → AnyError → AnyError
wrap prefix (AnyError.protocol_error e) = AnyError.protocol_error e
wrap prefix (AnyError.status_error s message) = AnyError.status_error s (str_append prefix message)
wrap prefix (AnyError.other_error message) = AnyError.other_error (str_append prefix message)

abbrev pub is_sent : String → Bool
is_sent raw = not (str_eq raw "") && not (str_eq raw "null")

-- The first of the forbidden fields that is there.
abbrev pub first_forbidden : CreateFrame → Option String
first_forbidden h =
    if is_sent h.stream
    then some "stream"
    else if is_sent h.stream_options
    then some "stream_options"
    else if is_sent h.background
    then some "background"
    else none

module _ {S : Type 0} (store : Option (ResponseStore S)) (x : Externals) where
  abbrev pub add_error : Bool → ErrorFrame → Act (Session S)
  add_error false f s = (s, some (sink_error "write frame"))
  add_error true f s =
      (record s { exchange = record s.exchange { errors = s.exchange.errors ++ f ∷ [] } }, none)

  -- `writeError`.
  unfoldable pub write_error : AnyError → Act (Session S)
  unfolding as_error error_status payload
  write_error err s =
      let e = as_error err in
      add_error (x.takes_write s.exchange) (record { status = error_status e; error = payload e }) s

  abbrev pub forget : Continuation → Act (Session S)
  forget c =
      change (λ (s : Session S). if c.resolved then record s { cache = delete s.cache c.id } else s)

  abbrev pub report_save : String → Option AnyError → Act (Session S)
  report_save id none = skip
  report_save id (some e) =
      write_error (wrap (str_append "save response " (str_append (x.quoted id) ": ")) e)

  abbrev pub save_shared : Option (ResponseStore S) → Bool → String → Items → Act (Session S)
  save_shared none stored id items = skip
  save_shared (some k) false id items = skip
  save_shared (some k) true id items =
      λ s. let r = k.save s.shared id items in report_save id r.1 (record s { shared = r.0 })

  abbrev pub save_cached : String → Items → Act (Session S)
  save_cached id items = change (λ (s : Session S). record s { cache = save s.cache id items })

  -- The response exists once its terminal event went out.
  abbrev pub remember_named : TurnRequest → Continuation → Response → Act (Session S)
  remember_named req c r =
      if is_failed r.status
      then forget c
      else (save_cached r.id (history req.request.input r)
          >> save_shared store req.stored r.id (history req.request.input r))

  unfoldable pub remember : TurnRequest → Continuation → Option Response → Act (Session S)
  unfolding save delete history write_error
  remember req c none = skip
  remember req c (some r) = if str_eq r.id "" then skip else remember_named req c r
