-- ===== src/Tests/Handlers.antt =====
-- The theorems on the handler, on a concrete stream and a concrete conversation.
use mathlib.Core.Option
use openresponses.Prelude.{
  ℕ, suc, ◌==◌, String, str_eq, if◌then◌else◌, ◌≡◌, refl, Bool, true, Option, none, some, List, [],
  ◌∷◌, length, pos, arith,
}
use openresponses.Item.{Item}
use openresponses.Response.{Response, ResponseStatus, ErrorPayload, terminal}
use openresponses.Event.{StreamEvent}
use openresponses.EventSink.{sink_error}
use openresponses.Accumulator.State.{bare_response, response}
use openresponses.Store.Memory.{MemoryStore}
use openresponses.Store.WellFormed.{WellFormed}
use openresponses.Store.Continuation.{check_function_call_outputs}
use openresponses.Handler.SseSink.{SseSink, new_sse_sink, send, send_all, finish}
use openresponses.Handler.Running.{Over}
use openresponses.Handler.Finished.{finish-Over}
use openresponses.Handler.Received.{payloads_of, drain-finish}
use openresponses.Client.EventStream.{new_event_stream, drain, wait_error}
use openresponses.Client.Drained.{summary}
use openresponses.Handler.History.{resolve, save_response, resolve-save_response}

abbrev always {ℓ} : {A : Type ℓ} → A → Bool
always a = true

abbrev overloaded : ErrorPayload
overloaded = record { type = "server_error"; code = "overloaded"; message = "later"; param = "" }

-- An adapter that fails after it has opened an item.
abbrev cut_short : List StreamEvent
cut_short =
    StreamEvent.response_created (some (bare_response ResponseStatus.in_progress))
    ∷ StreamEvent.output_item_added (pos 0) (some (Item.item_reference "msg_1"))
    ∷ []

abbrev fresh_response : Response
fresh_response = bare_response ResponseStatus.in_progress

abbrev cut_sink : SseSink
cut_sink =
    finish always always 3 fresh_response (some overloaded)
      (send_all always always (new_sse_sink "") cut_short)

finish-Over_example : Over cut_sink × (cut_sink.done ≡ true)
finish-Over_example =
    finish-Over always always (λ ev. refl) (λ es. refl) "" cut_short 3 fresh_response
      (some overloaded) refl

-- A payload names the number of its event.
abbrev encode : ℕ → StreamEvent → String
encode n ev = if n == 0 then "0" else if n == 1 then "1" else if n == 2 then "2" else "3"

abbrev event_named : List (ℕ × StreamEvent) → String → Option StreamEvent
event_named [] name = none
event_named ((n, ev) ∷ es) name = if str_eq (encode n ev) name then some ev else event_named es name

abbrev decode : String → Option StreamEvent
decode name = event_named cut_sink.written name

drain-finish_example :
    (Option.map (summary decode) (
        drain decode
          (suc (length (payloads_of encode cut_sink.written)))
          (new_event_stream (payloads_of encode cut_sink.written) none))
      ≡ some (
        (cut_sink.acc, (response cut_sink.acc, wait_error none (response cut_sink.acc))),
        (none, true),
      ))
    × (cut_sink.finals ≡ response cut_sink.acc ∷ [])
unfolding finish send_all send openresponses.Event.terminal_response
drain-finish_example =
    drain-finish encode decode always always (λ ev. refl) (λ es. refl) "" cut_short 3 fresh_response
      (some overloaded) refl (refl, (refl, (refl, (refl, tt))))

abbrev broken : SseSink
broken = record (new_sse_sink "") { failed = some (sink_error "write event") }

abbrev empty_store : MemoryStore
empty_store = record { capacity = 1; order = []; items = [] }

empty_store-WellFormed : WellFormed empty_store
empty_store-WellFormed = record {
  in_step = refl;
  distinct = tt;
  fits = omega arith;
  has_room = omega arith;
}

abbrev answered : Response
answered = record (bare_response ResponseStatus.completed) {
  id = "resp_1";
  output = some (Item.item_reference "msg_1") ∷ [];
}

resolve-save_response_example :
    resolve
      (save_response true empty_store [] (some answered))
      (record { input = []; previous_response_id = "resp_1" })
    ≡ (record { input = some (Item.item_reference "msg_1") ∷ []; previous_response_id = "" }, none)
unfolding check_function_call_outputs terminal
resolve-save_response_example =
    resolve-save_response empty_store [] [] answered empty_store-WellFormed refl refl

abbrev gone_wrong : Response
gone_wrong = record (bare_response ResponseStatus.failed) { id = "resp_2" }
