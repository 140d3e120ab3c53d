-- ===== src/Handler/SseSink.antt =====
-- handler.go, `sseSink`: the sink of an HTTP stream. Whether an event can be encoded, and whether the
-- connection takes a write, are the parameters `encodes` and `takes_write`.
use openresponses.Prelude.{
  ℕ, suc, String, Bool, true, false, Option, none, some, List, [], ◌∷◌, ◌++◌,
}
use openresponses.Response.{Response, ErrorPayload, complete_response, fail_response}
use openresponses.Event.{StreamEvent, is_terminal}
use openresponses.EventSink.{SendError, terminal_event_sent, sink_error, panicked}
use openresponses.Accumulator.State.{Accumulator, empty, response}
use openresponses.Accumulator.Add.{add}
use openresponses.Store.Continuation.{stamp_previous_id}

-- `written` holds the frames of events, each with its sequence number; `done` says that
-- the closing sentinel was written behind them. `finals` holds what `beforeTerminal` was called with.
pub record SseSink : Type 0 where
  pub previous_id : String
  pub seq : ℕ
  pub acc : Accumulator
  pub sent : Bool
  pub terminal : Bool
  pub failed : Option SendError
  pub written : List (ℕ × StreamEvent)
  pub finals : List (Option Response)
  pub done : Bool

-- `newSSESink`, with the id of the continuation.
abbrev pub new_sse_sink : String → SseSink
new_sse_sink previous_id = record {
  previous_id = previous_id;
  seq = 0;
  acc = empty;
  sent = false;
  terminal = false;
  failed = none;
  written = [];
  finals = [];
  done = false;
}

-- `acc.Response()`, or the new response `fresh` when there is none.
abbrev pub response_or : Response → Option Response → Response
response_or fresh none = fresh
response_or fresh (some r) = r

-- The response of the events sent so far.
abbrev pub current_response : Response → SseSink → Response
current_response fresh s = response_or fresh (response s.acc)

module _ (encodes : StreamEvent → Bool) (takes_write : List (ℕ × StreamEvent) → Bool) where
  -- The write of the frame.
  abbrev pub write_frame : Bool → SseSink → ℕ → StreamEvent → SseSink × Option SendError
  write_frame false s n ev =
      (record s { failed = some (sink_error "write event") }, some (sink_error "write event"))
  write_frame true s n ev = (record s { written = s.written ++ (n, ev) ∷ []; sent = true }, none)

  -- What is done for a terminal event before it is written.
  abbrev pub end_with : Bool → SseSink → SseSink
  end_with false s = s
  end_with true s = record s { terminal = true; finals = s.finals ++ response s.acc ∷ [] }

  abbrev pub fold_event :
      SseSink → ℕ → StreamEvent → Option Accumulator → SseSink × Option SendError
  fold_event s n ev none = (s, some panicked)
  fold_event s n ev (some a) =
      write_frame (takes_write s.written) (end_with (is_terminal ev) (record s { acc = a })) n ev

  abbrev pub encode_event : Bool → SseSink → ℕ → StreamEvent → SseSink × Option SendError
  encode_event false s n ev = (s, some (sink_error "encode"))
  encode_event true s n ev = fold_event s n ev (add s.acc ev)

  -- `writeLocked`.
  unfoldable pub write_locked : SseSink → StreamEvent → SseSink × Option SendError
  unfolding response add stamp_previous_id
  write_locked s ev =
      let stamped = stamp_previous_id ev s.previous_id in
      encode_event (encodes stamped) (record s { seq = suc s.seq }) s.seq stamped

  abbrev pub send_open :
      Option SendError → Bool → SseSink → StreamEvent → SseSink × Option SendError
  send_open (some e) b s ev = (s, some e)
  send_open none true s ev = (s, some terminal_event_sent)
  send_open none false s ev = write_locked s ev

  -- `Send`.
  unfoldable pub send : SseSink → StreamEvent → SseSink × Option SendError
  unfolding write_locked
  send s ev = send_open s.failed s.terminal s ev

  -- The sends of an adapter, whatever it makes of their errors.
  unfoldable pub send_all : SseSink → List StreamEvent → SseSink
  unfolding send
  send_all s [] = s
  send_all s (ev ∷ evs) = send_all (send s ev).0 evs

  abbrev pub end_stream : ℕ → Response → Option ErrorPayload → Bool → SseSink → SseSink
  end_stream now fresh e true s = s
  end_stream now fresh (some payload) false s =
      let s1 = (write_locked s (StreamEvent.error_event payload)).0 in
      (write_locked s1
        (StreamEvent.response_failed (some (fail_response payload (current_response fresh s1))))).0
  end_stream now fresh none false s =
      (write_locked s (
        StreamEvent.response_completed (some (complete_response now (current_response fresh s))))).0

  abbrev pub finish_open : Option SendError → ℕ → Response → Option ErrorPayload → SseSink → SseSink
  finish_open (some _) now fresh e s = s
  finish_open none now fresh e s =
      let ended = end_stream now fresh e s.terminal s in
      record ended { done = takes_write ended.written }

  -- `finish`; the payload is that of the error that `AsError` makes of the adapter's error.
  unfoldable pub finish : ℕ → Response → Option ErrorPayload → SseSink → SseSink
  unfolding write_locked complete_response fail_response response
  finish now fresh e s = finish_open s.failed now fresh e s
