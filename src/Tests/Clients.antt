-- ===== src/Tests/Clients.antt =====
-- The theorem on the client's side of a stream, on a stream without its sentinel.
use mathlib.Core.Option
use openresponses.Prelude.{
  String, str_eq, if◌then◌else◌, ◌≡◌, Option, none, some, List, [], ◌∷◌, suc, length,
}
use openresponses.Response.{ResponseStatus}
use openresponses.Event.{StreamEvent}
use openresponses.Accumulator.State.{empty, bare_response}
use openresponses.Accumulator.Add.{add_all}
use openresponses.Client.EventStream.{StreamError, Payload, new_event_stream, drain}
use openresponses.Client.Drained.{summary, ended_with, seen, drain-verdict}

abbrev decode : String → Option StreamEvent
decode text =
    if str_eq text "created"
    then some (StreamEvent.response_created (some (bare_response ResponseStatus.in_progress)))
    else none

abbrev cut_off : List Payload
cut_off = Payload.event "created" ∷ Payload.event "created" ∷ []

drain-verdict_example :
    Option.map
      (summary decode)
      (drain decode (suc (length cut_off)) (new_event_stream cut_off none))
    ≡ ended_with decode (some StreamError.truncated_stream) (add_all empty (seen decode cut_off))
unfolding openresponses.Event.terminal_response
drain-verdict_example = drain-verdict decode cut_off none
