-- ===== src/WebSocket/Conn.antt =====
-- websocket/websocket.go, `Conn.Next` and the loop of `Conn.Turn`, on what the connection's reader
-- delivers.
use openresponses.Prelude.{ℕ, String, Bool, true, false, Option, none, some, List, [], ◌∷◌}
use openresponses.Response.{Response, ErrorPayload}
use openresponses.Event.{StreamEvent, is_terminal}
use openresponses.Errors.{Error, err}
use openresponses.Accumulator.State.{Accumulator, empty, response}
use openresponses.Accumulator.Add.{add}

-- A frame: its event and, for an error frame, its status; or the error of `DecodeEvent`; or the
-- error that ended the reader.
pub data Delivered : Type 0 where
  event : ℕ → StreamEvent → Delivered
  undecodable failed : String → Delivered

pub data TurnError : Type 0 where
  of_frame : String → TurnError
  of_server : Error → TurnError
  stream_closed : TurnError

-- The results of `Turn`, and what is left for the next one.
pub record TurnResult : Type 0 where
  pub response : Option Response
  pub error : Option TurnError
  pub left : List Delivered

abbrev pub returns : Accumulator → Option TurnError → List Delivered → Option TurnResult
returns a e left = some (record { response = response a; error = e; left = left })

-- The payload of an `ErrorEvent`.
abbrev pub error_in : StreamEvent → Option ErrorPayload
error_in (StreamEvent.error_event p) = some p
error_in _ = none

abbrev pub unless_terminal :
    Bool → Accumulator → List Delivered → Option TurnResult → Option TurnResult
unless_terminal true a left more = returns a none left
unless_terminal false a left more = more

abbrev pub unless_error :
    Option ErrorPayload
    → ℕ
    → Bool
    → Accumulator
    → List Delivered
    → Option TurnResult
    → Option TurnResult
unless_error (some p) status terminal a left more =
    returns a (some (TurnError.of_server (err p status))) left
unless_error none status terminal a left more = unless_terminal terminal a left more

abbrev pub after_add :
    (Accumulator → Option TurnResult)
    → ℕ
    → StreamEvent
    → List Delivered
    → Option Accumulator
    → Option TurnResult
after_add more status ev left none = none
after_add more status ev left (some a) =
    unless_error (error_in ev) status (is_terminal ev) a left (more a)

-- The loop of `Turn`; `none` is a panic of `Add`, and an empty list a reader that has stopped.
unfoldable pub turn_from : List Delivered → Accumulator → Option TurnResult
unfolding add err response
turn_from [] a = returns a (some TurnError.stream_closed) []
turn_from (Delivered.failed m ∷ rest) a = returns a (some (TurnError.of_frame m)) rest
turn_from (Delivered.undecodable m ∷ rest) a = returns a (some (TurnError.of_frame m)) rest
turn_from (Delivered.event status ev ∷ rest) a =
    after_add (turn_from rest) status ev rest (add a ev)

-- `Turn`, when its request was sent.
abbrev pub conn_turn : List Delivered → Option TurnResult
conn_turn frames = turn_from frames empty
