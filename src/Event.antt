-- ===== src/Event.antt =====
-- events.go: the streaming events. The sequence number that `SetSequence` stores is kept beside the
-- event, in the records of the sinks. The indexes are integers: nothing checks them on the wire. An
-- event carries values: what a sink has received does not change with the sender's objects.
use openresponses.Prelude.{ℤ, String, Bool, true, false, Option, none, some, List}
use openresponses.Item.{Item, Content}
use openresponses.Response.{Response, ErrorPayload}

pub data StreamEvent : Type 0 where
  response_created response_queued response_in_progress : Option Response → StreamEvent
  response_completed response_failed response_incomplete : Option Response → StreamEvent
  -- output index, item
  output_item_added output_item_done : ℤ → Option Item → StreamEvent
  -- item id, output index, content index, part
  content_part_added content_part_done : String → ℤ → ℤ → Option Content → StreamEvent
  -- item id, output index, content index, delta, log probabilities
  output_text_delta : String → ℤ → ℤ → String → List String → StreamEvent
  -- the same with the whole text; `none` is a nil slice of log probabilities
  output_text_done : String → ℤ → ℤ → String → Option (List String) → StreamEvent
  -- item id, output index, content index, delta or text
  refusal_delta refusal_done : String → ℤ → ℤ → String → StreamEvent
  -- item id, output index, delta or arguments
  function_call_arguments_delta function_call_arguments_done : String → ℤ → String → StreamEvent
  -- item id, output index, summary index, part
  reasoning_summary_part_added : String → ℤ → ℤ → Option Content → StreamEvent
  reasoning_summary_part_done : String → ℤ → ℤ → Option Content → StreamEvent
  -- item id, output index, summary or content index, delta or text
  reasoning_summary_text_delta : String → ℤ → ℤ → String → StreamEvent
  reasoning_summary_text_done : String → ℤ → ℤ → String → StreamEvent
  reasoning_delta reasoning_done : String → ℤ → ℤ → String → StreamEvent
  -- item id, output index, content index, annotation index, annotation
  output_text_annotation_added : String → ℤ → ℤ → ℤ → Option String → StreamEvent
  error_event : ErrorPayload → StreamEvent
  -- type, raw JSON
  unknown_event : String → String → StreamEvent

-- `TerminalResponse`: the response of a terminal event. The inner option is a nil response.
unfoldable pub terminal_response : StreamEvent → Option (Option Response)
terminal_response (StreamEvent.response_completed r) = some r
terminal_response (StreamEvent.response_failed r) = some r
terminal_response (StreamEvent.response_incomplete r) = some r
terminal_response _ = none

abbrev pub is_some {ℓ} : {A : Type ℓ} → Option A → Bool
is_some none = false
is_some (some _) = true

abbrev pub is_terminal : StreamEvent → Bool
is_terminal ev = is_some (terminal_response ev)
