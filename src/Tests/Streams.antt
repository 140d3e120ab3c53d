-- ===== src/Tests/Streams.antt =====
-- The theorems on the emitter, the checker and the accumulator, on concrete streams.
use openresponses.Prelude.{
  ◌==◌, ℕ, ◌≡◌, refl, true, false, if◌then◌else◌, Option, none, some, List, [], ◌∷◌, pos,
}
use openresponses.Item.{Item, Status, Message, Content, item_identity}
use openresponses.Response.{Response, ResponseStatus, terminal, complete_response}
use openresponses.Event.{StreamEvent, is_terminal, terminal_response}
use openresponses.Accumulator.State.{Accumulator, bare_response, empty, item, position, with_output}
use openresponses.Accumulator.Add.{add}
use openresponses.Accumulator.Panics.{Total, add-Total}
use openresponses.Accumulator.Placement.{item-added}
use openresponses.Emitter.Folded.{Folded}
use openresponses.Streamtest.Validator.{Validator, new_validator, ok}
use openresponses.Streamtest.Check.{handle, steps, validate}
use openresponses.Streamtest.Sink.{Sink, new_sink, sink, send, Recorded, send-Recorded}
use openresponses.Accumulator.State.{slot, target, add_item, close_item, relist, set_response}
use openresponses.Accumulator.Add.{modify_item, set_part, on_part}
use openresponses.Emitter.Writer.{
  close_part, reopen, text_part, message_text, close_message, call_arguments, close_call,
}
use openresponses.Emitter.Writer.{open_part as write_part}
use openresponses.Emitter.State.{Emitter, new_emitter}
use openresponses.Emitter.Calls.{
  Call, run, perform, start, close_open, before_item, before_terminal, open_writer, complete,
  incomplete,
}
use openresponses.Emitter.Ended.{Finished}
use openresponses.Streamtest.Accepted.{begins, numbered, ends_once, validate-accepted}
use openresponses.Streamtest.Terminal.{handle-terminal}
use openresponses.Streamtest.Checked.{Succeeds}
use openresponses.Streamtest.Step.{on_failed}
use openresponses.Emitter.Conformance.{
  after_calls, run-steps, complete-validate, incomplete-validate, ended-validate,
}

-- A wire form that loses nothing.
abbrev wire : StreamEvent → Option StreamEvent
wire = some

kept : (ev : StreamEvent) → wire ev ≡ some ev
kept ev = refl

abbrev blank : Response
blank = bare_response ResponseStatus.unset

-- A message with a text, and then a function call that is left open.
abbrev greeting : List Call
greeting =
    Call.message "msg_1" ""
    ∷ Call.text "Hello"
    ∷ Call.text ", world"
    ∷ Call.function_call "fc_1" "call_1" "" "weather"
    ∷ Call.arguments "{}"
    ∷ []

abbrev greeted : Emitter Sink
greeted = after_calls wire kept "resp_1" blank greeting

greeting_running : greeted.terminal ≡ false
unfolding run perform new_emitter start close_open before_item open_writer close_part write_part
    reopen text_part message_text close_message call_arguments close_call send add modify_item
    set_part on_part set_response add_item close_item slot target relist position item_identity
    terminal_response
greeting_running = refl

complete-validate_example :
    ((complete (sink wire) 7 greeted).1 ≡ none)
    × (validate false (complete (sink wire) 7 greeted).0.sink.events ≡ ok tt)
complete-validate_example =
    complete-validate wire kept "resp_1" blank greeting 7 refl greeting_running

run-steps_example : (v : Validator) × (steps (new_validator false) 0 greeted.sink.events ≡ ok v)
run-steps_example = run-steps wire kept "resp_1" blank greeting refl

incomplete-validate_example :
    ((incomplete (sink wire) 7 "max_output_tokens" greeted).1 ≡ none)
    × (validate false (incomplete (sink wire) 7 "max_output_tokens" greeted).0.sink.events ≡ ok tt)
incomplete-validate_example =
    incomplete-validate wire kept "resp_1" blank greeting 7 "max_output_tokens" refl
      greeting_running

-- A text, the end, and two calls that come too late.
abbrev farewell : List Call
farewell =
    Call.message "msg_1" ""
    ∷ Call.text "Bye"
    ∷ Call.completes 5
    ∷ Call.text "!"
    ∷ Call.reasoning "rs_1" []
    ∷ []

abbrev parted : Emitter Sink
parted = after_calls wire kept "resp_2" blank farewell

parted-Finished : Finished parted
unfolding run perform new_emitter start close_open before_item open_writer close_part write_part
    reopen text_part message_text close_message call_arguments close_call send add modify_item
    set_part on_part set_response add_item close_item slot target relist position item_identity
    terminal_response complete before_terminal complete_response terminal
parted-Finished = record { ended = refl; begun = refl; no_writer = refl }

ended-validate_example : validate false parted.sink.events ≡ ok tt
ended-validate_example =
    ended-validate wire kept "resp_2" blank farewell refl (parted-Finished.ended)

abbrev finished_events : List (ℕ × StreamEvent)
finished_events = (complete (sink wire) 7 greeted).0.sink.events

validate-accepted_example :
    (begins finished_events ≡ true)
    × (numbered 0 finished_events ≡ true)
    × (ends_once finished_events ≡ true)
validate-accepted_example =
    validate-accepted false finished_events
      ((complete-validate wire kept "resp_1" blank greeting 7 refl greeting_running).1)

abbrev failed : StreamEvent
failed = StreamEvent.response_failed (some (bare_response ResponseStatus.failed))

abbrev over : Validator
over = record (new_validator false) { terminal = true }

handle-terminal_example : over.terminal ≡ (if is_terminal failed then true else false)
unfolding handle on_failed
handle-terminal_example = handle-terminal (new_validator false) 0 failed over refl

abbrev created : StreamEvent
created = StreamEvent.response_created (some blank)

send-Recorded_example :
    Succeeds (Recorded wire (new_validator false) 1) (send wire new_sink created)
unfolding handle steps
send-Recorded_example =
    send-Recorded wire kept (new_validator false) 0 new_sink created (new_validator false)
      (record { accepted = refl; count = refl; numbered = refl; ended = refl }) refl refl refl refl

abbrev a_part : StreamEvent
a_part = StreamEvent.content_part_added "msg_1" (pos 0) (pos 2) (some (Content.refusal "no"))

add-Total_example : Total (add empty a_part)
add-Total_example = add-Total empty a_part refl

abbrev a_message : Message
a_message = record {
  id = "msg_1";
  status = Status.in_progress;
  role = "assistant";
  content = [];
  phase = "";
  extra = [];
}

abbrev holding : Accumulator
holding = with_output empty (some (Item.message a_message) ∷ [])

-- The output index 0 was used, and its item closed, before.
abbrev reusing : Accumulator
reusing = record holding { closed = λ p. p == 0 }

item-added_example :
    (item (add_item reusing (pos 0) (some (Item.item_reference "msg_2"))) (pos 0)
      ≡ some (Item.item_reference "msg_2"))
    × (item (close_item reusing (pos 0) (some (Item.item_reference "msg_2"))) (pos 0)
        ≡ some (Item.item_reference "msg_2"))
item-added_example = item-added reusing 0 (Item.item_reference "msg_2")

-- The wire form keeps the text deltas and refuses everything else.
abbrev only_text : StreamEvent → Option StreamEvent
only_text (StreamEvent.output_text_delta id i c d ls) =
    some (StreamEvent.output_text_delta id i c d ls)
only_text _ = none
