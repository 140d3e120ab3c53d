-- ===== src/WebSocket/Serve.antt =====
-- websocket/websocket.go, `session.turn` and the loop of `session.run`, from the message on.
use openresponses.Prelude.{
  String, str_eq, str_append, if◌then◌else◌, Bool, true, false, not, ◌&&◌, ◌||◌, Option, none, some,
  List, [], ◌∷◌,
}
use openresponses.Response.{Response, complete_response}
use openresponses.Event.{StreamEvent, is_some}
use openresponses.EventSink.{SendError, Act, ◌>>◌}
use openresponses.Errors.{AnyError}
use openresponses.Accumulator.State.{response}
use openresponses.Store.Memory.{MemoryStore, delete, load}
use openresponses.Store.Continuation.{
  Continuation, Load, Resolution, ResolveError, resolve_continuation,
}
use openresponses.Store.Resolve.{loads}
use openresponses.Handler.SseSink.{response_or}
use openresponses.WebSocket.Sink.{
  Exchange, nothing_written, TurnSink, new_turn_sink, send, send_all,
}
use openresponses.WebSocket.Turn.{
  write_error, forget, remember, invalid_request, first_forbidden, Decoded, CreateFrame,
  TurnRequest, ResponseStore, Externals, Message, Session,
}

module _ {S : Type 0} (store : Option (ResponseStore S)) (x : Externals) where
  abbrev pub writes_events : TurnSink → Session S → Session S
  writes_events t s = record s { exchange = record s.exchange { events = t.written } }

  abbrev pub after_completed :
      TurnRequest → Continuation → Response → TurnSink × Option SendError → Act (Session S)
  after_completed req c r (t, none) s = remember store x req c (some r) (writes_events t s)
  after_completed req c r (t, some e) s = (writes_events t s, some e)

  -- What follows the adapter's stream, if the adapter did not fail before a terminal event.
  abbrev pub conclude : Bool → TurnRequest → Continuation → TurnSink → Act (Session S)
  conclude true req c t s = remember store x req c (response t.acc) (writes_events t s)
  conclude false req c t s =
      let r = complete_response x.now (response_or (x.new_response req) (response t.acc)) in
      after_completed req c r
        (send x.encodes x.takes_write t (StreamEvent.response_completed (some r))) s

  abbrev pub after_adapter :
      Option AnyError → Bool → TurnRequest → Continuation → TurnSink → Act (Session S)
  after_adapter (some e) false req c t =
      (λ s. (writes_events t s, none)) >> forget store x c >> write_error store x e
  after_adapter _ terminal req c t = conclude terminal req c t

  abbrev pub after_stream :
      Option SendError → Option AnyError → TurnRequest → Continuation → TurnSink → Act (Session S)
  after_stream (some failed) e req c t s = (writes_events t s, some failed)
  after_stream none e req c t s = after_adapter e t.terminal req c t s

  unfoldable pub stream : TurnRequest → Continuation → Act (Session S)
  unfolding send send_all remember write_error response complete_response delete
  stream req c =
      let r = x.create_stream req in
      let t = send_all x.encodes x.takes_write (new_turn_sink c.id) r.0 in
      after_stream t.failed r.1 req c t

  -- A miss is final where a shared store would have had the response, or none could have.
  abbrev pub is_final_miss : Bool → Continuation → Bool
  is_final_miss stored c = not (str_eq c.id "") && not c.resolved && (not stored || is_some store)

  abbrev pub not_found : Continuation → AnyError
  not_found c = AnyError.protocol_error (record {
    status_code = 0;
    type = "not_found";
    code = "previous_response_not_found";
    message = str_append "previous response " (str_append (x.quoted c.id) " is not available");
    param = "previous_response_id";
  })

  abbrev pub on_error : Option ResolveError → Bool → Resolution → Act (Session S)
  on_error (some e) stored r =
      forget store x r.continuation >> write_error store x (x.resolve_error e)
  on_error none stored r =
      if is_final_miss stored r.continuation
      then write_error store x (not_found r.continuation)
      else stream (record { request = r.request; stored = stored }) r.continuation

  abbrev pub shared_load : Option (ResponseStore S) → S → Option Load
  shared_load none s = none
  shared_load (some k) s = some (k.load s)

  abbrev pub stores_of : Session S → List (Option Load)
  stores_of s = some (loads s.cache) ∷ shared_load store s.shared ∷ []

  abbrev pub on_valid : Option AnyError → TurnRequest → Act (Session S)
  on_valid (some e) req = write_error store x e
  on_valid none req =
      λ s. let r = resolve_continuation req.request (stores_of s) in on_error r.error req.stored r s

  abbrev pub on_request : Decoded TurnRequest → Act (Session S)
  on_request (Decoded.invalid m) = write_error store x (invalid_request "invalid_json" m "")
  on_request (Decoded.valid req) = on_valid (x.validate req) req

  abbrev pub on_forbidden : Option String → String → Act (Session S)
  on_forbidden (some field) body = write_error store x (
      invalid_request "unsupported_parameter" (str_append field " must not be sent over WebSocket")
        field)
  on_forbidden none body = on_request (x.request body)

  abbrev pub on_head : Decoded CreateFrame → String → Act (Session S)
  on_head (Decoded.invalid m) body =
      write_error store x
        (invalid_request "invalid_json" (str_append "message is not valid JSON: " m) "")
  on_head (Decoded.valid h) body =
      if str_eq h.type "response.create"
      then on_forbidden (first_forbidden h) body
      else write_error store x (
          invalid_request "invalid_value"
            (str_append "unknown client event type " (x.quoted h.type)) "type")

  -- `turn`.
  unfoldable pub turn : String → Act (Session S)
  unfolding stream write_error resolve_continuation load delete
  turn body = on_head (x.head body) body

  -- One round of the loop of `run`.
  abbrev pub on_message : Message → Act (Session S)
  on_message Message.binary =
      write_error store x (invalid_request "invalid_message" "expected a text frame" "")
  on_message (Message.text body) = turn body

  abbrev pub unless_unusable : Option SendError → List Exchange → List Exchange
  unless_unusable none rest = rest
  unless_unusable (some e) rest = []

  -- The loop of `run`: what is written for each of the client's messages.
  unfoldable pub run : List Message → MemoryStore → S → List Exchange
  unfolding turn write_error
  run [] cache shared = []
  run (m ∷ ms) cache shared =
      let r =
        on_message m (record { cache = cache; shared = shared; exchange = nothing_written }) in
      let rest = run ms r.0.cache r.0.shared in r.0.exchange ∷ unless_unusable r.1 rest
