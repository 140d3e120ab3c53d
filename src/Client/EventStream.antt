-- ===== src/Client/EventStream.antt =====
-- stream.go, `EventStream`: `Next`, `finish` and `Wait`. What the scanner yields is a list of
-- payloads and then an error or the end of the data; `decode` is `DecodeEvent`, where `none` is an
-- error. The context's hook is not modelled: no other goroutine closes the stream.
use mathlib.Core.Option
use openresponses.Prelude.{
  ℕ, zero, suc, String, Bool, true, false, ◌||◌, Option, none, some, List, [], ◌∷◌,
}
use openresponses.Response.{Response, ErrorPayload}
use openresponses.Event.{StreamEvent, is_terminal}
use openresponses.Accumulator.State.{Accumulator, empty, response}
use openresponses.Accumulator.Add.{add}

pub data StreamError : Type 0 where
  read_failed : String → StreamError
  undecodable truncated_stream : StreamError

-- The payload of a frame: the sentinel that ends a stream, or an event's.
pub data Payload : Type 0 where
  sentinel : Payload
  event : String → Payload

pub record EventStream : Type 0 where
  pub payloads : List Payload
  pub read_error : Option StreamError
  pub acc : Accumulator
  pub cur : Option StreamEvent
  pub err : Option StreamError
  pub done : Bool
  pub closed : Bool
  pub terminal : Bool

-- `NewEventStream`.
abbrev pub new_event_stream : List Payload → Option StreamError → EventStream
new_event_stream payloads read_error = record {
  payloads = payloads;
  read_error = read_error;
  acc = empty;
  cur = none;
  err = none;
  done = false;
  closed = false;
  terminal = false;
}

abbrev pub end_error : Option StreamError → Option StreamError → Bool → Option StreamError
end_error (some old) e complete = some old
end_error none (some e) complete = some e
end_error none none true = none
end_error none none false = some StreamError.truncated_stream

abbrev pub finish_unless : Bool → EventStream → Option StreamError → Bool → EventStream
finish_unless true s e saw_done = s
finish_unless false s e saw_done = record s {
  done = true;
  err = end_error s.err e (saw_done || s.terminal);
}

-- `finish`.
unfoldable pub finish : EventStream → Option StreamError → Bool → EventStream
finish s e saw_done = finish_unless s.done s e saw_done

module _ (decode : String → Option StreamEvent) where
  -- The state after an event; `none` where `Add` panics.
  abbrev pub take_event :
      EventStream → StreamEvent → Option Accumulator → Option (EventStream × Bool)
  take_event s ev none = none
  take_event s ev (some a) =
      some (record s { cur = some ev; acc = a; terminal = s.terminal || is_terminal ev }, true)

  abbrev pub on_decoded : EventStream → Option StreamEvent → Option (EventStream × Bool)
  on_decoded s none = some (finish s (some StreamError.undecodable) false, false)
  on_decoded s (some ev) = take_event s ev (add s.acc ev)

  abbrev pub on_payloads : List Payload → EventStream → Option (EventStream × Bool)
  on_payloads [] s = some (finish s s.read_error false, false)
  on_payloads (Payload.sentinel ∷ rest) s =
      some (finish (record s { payloads = rest }) none true, false)
  on_payloads (Payload.event text ∷ rest) s =
      on_decoded (record s { payloads = rest }) (decode text)

  abbrev pub next_unless : Bool → EventStream → Option (EventStream × Bool)
  next_unless true s = some (s, false)
  next_unless false s = on_payloads s.payloads s

  -- `Next`: the state and the result; `none` is a panic.
  unfoldable pub next : EventStream → Option (EventStream × Bool)
  next s = next_unless (s.done || s.closed) s

  abbrev pub continue_with :
      (EventStream → Option EventStream) → Option (EventStream × Bool) → Option EventStream
  continue_with rest none = none
  continue_with rest (some (s, true)) = rest s
  continue_with rest (some (s, false)) = some s

  -- The loop of `Wait`, with fuel.
  unfoldable pub drain : ℕ → EventStream → Option EventStream
  drain zero s = some s
  drain (suc n) s = continue_with (drain n) (next s)

-- What ends `Wait` with an error: the stream, or the error in the response.
pub data WaitError : Type 0 where
  of_stream : StreamError → WaitError
  of_response : ErrorPayload → WaitError

abbrev pub error_of : Option Response → Option WaitError
error_of none = none
error_of (some r) = Option.map WaitError.of_response r.error

abbrev pub wait_error : Option StreamError → Option Response → Option WaitError
wait_error (some e) r = some (WaitError.of_stream e)
wait_error none r = error_of r

-- The results of `Wait` on a drained stream.
unfoldable pub wait_result : EventStream → Option Response × Option WaitError
wait_result s = (response s.acc, wait_error s.err (response s.acc))
