-- ===== src/WebSocket/Sink.antt =====
-- websocket/websocket.go, `sink`: the sink of one turn.
use openresponses.Prelude.{
  ℕ, suc, String, Bool, true, false, ◌||◌, Option, none, some, List, [], ◌∷◌, ◌++◌,
}
use openresponses.Response.{ErrorPayload}
use openresponses.Event.{StreamEvent, is_terminal}
use openresponses.EventSink.{SendError, terminal_event_sent, sink_error, panicked}
use openresponses.Accumulator.State.{Accumulator, empty}
use openresponses.Accumulator.Add.{add}
use openresponses.Store.Continuation.{stamp_previous_id}

pub record ErrorFrame : Type 0 where
  pub status : ℕ
  pub error : ErrorPayload

-- What the server wrote in one turn: the events, each with its sequence number, and the error frames
-- behind them.
pub record Exchange : Type 0 where
  pub events : List (ℕ × StreamEvent)
  pub errors : List ErrorFrame

abbrev pub nothing_written : Exchange
nothing_written = record { events = []; errors = [] }

pub record TurnSink : Type 0 where
  pub previous_id : String
  pub seq : ℕ
  pub acc : Accumulator
  pub terminal : Bool
  pub failed : Option SendError
  pub written : List (ℕ × StreamEvent)

abbrev pub new_turn_sink : String → TurnSink
new_turn_sink previous_id = record {
  previous_id = previous_id;
  seq = 0;
  acc = empty;
  terminal = false;
  failed = none;
  written = [];
}

module _ (encodes : StreamEvent → Bool) (takes_write : Exchange → Bool) where
  -- A panic of `Add` ends the session, as a write that failed does.
  abbrev pub fold_event : TurnSink → StreamEvent → Option Accumulator → TurnSink × Option SendError
  fold_event s ev none = (record s { failed = some panicked }, some panicked)
  fold_event s ev (some a) = (record s { acc = a; terminal = s.terminal || is_terminal ev }, none)

  abbrev pub write_frame : Bool → TurnSink → ℕ → StreamEvent → TurnSink × Option SendError
  write_frame false s n ev =
      (record s { failed = some (sink_error "write frame") }, some (sink_error "write frame"))
  write_frame true s n ev =
      fold_event (record s { written = s.written ++ (n, ev) ∷ [] }) ev (add s.acc ev)

  abbrev pub encode_event : Bool → TurnSink → ℕ → StreamEvent → TurnSink × Option SendError
  encode_event false s n ev = (s, some (sink_error "encode"))
  encode_event true s n ev =
      write_frame (takes_write (record { events = s.written; errors = [] })) s n ev

  abbrev pub send_stamped : TurnSink → StreamEvent → TurnSink × Option SendError
  send_stamped s ev = encode_event (encodes ev) (record s { seq = suc s.seq }) s.seq ev

  abbrev pub send_open :
      Option SendError → Bool → TurnSink → StreamEvent → TurnSink × Option SendError
  send_open (some e) b s ev = (s, some e)
  send_open none true s ev = (s, some terminal_event_sent)
  send_open none false s ev = send_stamped s (stamp_previous_id ev s.previous_id)

  -- `Send`.
  unfoldable pub send : TurnSink → StreamEvent → TurnSink × Option SendError
  unfolding add stamp_previous_id
  send s ev = send_open s.failed s.terminal s ev

  -- The sends of an adapter, whatever it makes of their errors.
  unfoldable pub send_all : TurnSink → List StreamEvent → TurnSink
  unfolding send
  send_all s [] = s
  send_all s (ev ∷ evs) = send_all (send s ev).0 evs
