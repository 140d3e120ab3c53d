-- ===== src/Tests/Sockets.antt =====
-- The theorems on the WebSocket session, on concrete messages.
use mathlib.Core.Option
use openresponses.Prelude.{
  str_eq, Option, ◌≡◌, refl, inl, if◌then◌else◌, true, false, none, some, List, [], ◌∷◌, length,
  pos,
}
use openresponses.Response.{Response, ResponseStatus}
use openresponses.Event.{StreamEvent}
use openresponses.Errors.{AnyError}
use openresponses.Accumulator.State.{bare_response}
use openresponses.Store.Memory.{MemoryStore, new_memory_store, save}
use openresponses.Store.WellFormed.{new-WellFormed}
use openresponses.Store.Continuation.{
  Continuation, resolve_continuation, check_function_call_outputs,
}
use openresponses.Store.Resolve.{loads}
use openresponses.WebSocket.Sink.{nothing_written}
use openresponses.WebSocket.Turn.{
  Decoded, CreateFrame, TurnRequest, ResponseStore, Externals, Message, Session, remember,
}
use openresponses.WebSocket.Serve.{stores_of, run}
use openresponses.WebSocket.Answered.{AllAnswered}
use openresponses.WebSocket.Answers.{run-Answered}
use openresponses.WebSocket.Remembered.{remember-continues}
use openresponses.Errors.{err}
use openresponses.Accumulator.State.{Accumulator, empty}
use openresponses.Accumulator.Add.{add_all, on_error}
use openresponses.Emitter.Folded.{events_of}
use openresponses.WebSocket.Sink.{Exchange}
use openresponses.WebSocket.Conn.{TurnError, returns, conn_turn}
use openresponses.WebSocket.InStep.{received, error_received, turn-received}
use openresponses.WebSocket.Stale.{save_frame, stale-error}

-- A `MemoryStore` is a `ResponseStore`.
abbrev memory_store : ResponseStore MemoryStore
memory_store = record { load = loads; save = λ m id items. (save m id items, none) }

abbrev answer : Response
answer = record (bare_response ResponseStatus.completed) { id = "resp_1" }

abbrev create_frame : CreateFrame
create_frame = record {
  type = "response.create";
  stream = "";
  stream_options = "null";
  background = "";
}

abbrev a_request : TurnRequest
a_request = record { request = record { input = []; previous_response_id = "" }; stored = false }

abbrev externals : Externals
externals = record {
  head = λ body.
      if str_eq body "{" then Decoded.invalid "unexpected end" else Decoded.valid create_frame;
  request = λ body. Decoded.valid a_request;
  validate = λ req. none;
  resolve_error = λ e. AnyError.other_error "load";
  quoted = λ s. s;
  create_stream = λ req. (
    StreamEvent.response_created (some answer) ∷ StreamEvent.response_completed (some answer) ∷ [],
    none,
  );
  new_response = λ req. answer;
  now = 7;
  encodes = λ ev. true;
  takes_write = λ e. true;
}

abbrev messages : List Message
messages = Message.binary ∷ Message.text "{" ∷ Message.text "{}" ∷ []

run-Answered_example :
    (length (
        run
          (some memory_store)
          externals
          messages
          (new_memory_store (pos 4))
          (new_memory_store (pos 4)))
      ≡ 3)
    × AllAnswered (
        run
          (some memory_store)
          externals
          messages
          (new_memory_store (pos 4))
          (new_memory_store (pos 4)))
run-Answered_example =
    run-Answered (some memory_store) externals (λ ev. refl) (λ e. refl) (λ req. refl) messages
      (new_memory_store (pos 4)) (new_memory_store (pos 4))

abbrev session : Session MemoryStore
session = record {
  cache = new_memory_store (pos 4);
  shared = new_memory_store (pos 4);
  exchange = nothing_written;
}

abbrev first_turn : Continuation
first_turn = record { id = ""; resolved = false }

remember-continues_example :
    resolve_continuation
      (record { input = []; previous_response_id = "resp_1" })
      (stores_of
        (some memory_store)
        externals
        (remember (some memory_store) externals a_request first_turn (some answer) session).0)
    ≡ record {
      request = record { input = []; previous_response_id = "" };
      continuation = record { id = "resp_1"; resolved = true };
      error = none;
    }
unfolding check_function_call_outputs
remember-continues_example =
    remember-continues (some memory_store) externals a_request first_turn answer session []
      (new-WellFormed (pos 4) []) refl refl refl

abbrev answered : Exchange
answered = record { events = (0, StreamEvent.response_completed (some answer)) ∷ []; errors = [] }

abbrev or_empty : Option Accumulator → Accumulator
or_empty (some a) = a
or_empty none = empty

abbrev folded : Accumulator
folded = or_empty (add_all empty (events_of answered.events))

turn-received_example : conn_turn (received answered []) ≡ returns folded none []
unfolding add_all openresponses.Accumulator.Add.add openresponses.Event.terminal_response
    Option.bind
turn-received_example = turn-received answered [] folded (inl (refl, refl)) refl refl

-- A store that cannot save.
abbrev broken_store : ResponseStore MemoryStore
broken_store = record {
  load = loads;
  save = λ m id items. (m, some (AnyError.other_error "disk full"));
}

abbrev stored_request : TurnRequest
stored_request = record {
  request = record { input = []; previous_response_id = "" };
  stored = true;
}

abbrev answered_session : Session MemoryStore
answered_session = record session { exchange = answered }

stale-error_example :
    let f =
      save_frame broken_store externals (λ e. refl) "resp_1" (AnyError.other_error "disk full") in
    (conn_turn (
        received
          (remember
            (some broken_store)
            externals
            stored_request
            first_turn
            (some answer)
            answered_session).0.exchange
          [])
      ≡ returns folded none (error_received f ∷ []))
    × (conn_turn (error_received f ∷ [])
        ≡ returns (on_error empty f.error) (some (TurnError.of_server (err f.error f.status))) [])
unfolding add_all openresponses.Accumulator.Add.add openresponses.Event.terminal_response
    Option.bind
stale-error_example =
    stale-error broken_store externals (λ e. refl) stored_request first_turn answer answered_session
      (AnyError.other_error "disk full") [] folded refl refl refl refl refl refl refl refl
