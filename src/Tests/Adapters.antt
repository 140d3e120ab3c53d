-- ===== src/Tests/Adapters.antt =====
-- The theorems on the adapters of chatcompletions, providers/gemini and providers/anthropic, on
-- concrete streams of a provider.
use openresponses.Prelude.{
  ℕ, zero, suc, ◌==◌, ◌≤◌, if◌then◌else◌, String, str_eq, ◌≡◌, refl, Bool, true, false, Option,
  none, some, List, [], ◌∷◌, ℤ, pos, negsuc,
}
use openresponses.Response.{Response, ResponseStatus}
use openresponses.Event.{StreamEvent}
use openresponses.Accumulator.State.{bare_response}
use openresponses.Streamtest.Sink.{new_sink, sink}
use openresponses.Client.EventStream.{Payload}
use openresponses.Errors.{quota}
use openresponses.Adapter.Steps.{AdapterError}
use openresponses.Adapter.Outcome.{Outcome}
use openresponses.ChatCompletions.Chunk.{Chunk, Code, ApiError}
use openresponses.ChatCompletions.Failure.{to_error}
use openresponses.ChatCompletions.Failure.{Texts as ErrorTexts}
use openresponses.ChatCompletions.Decoder.{Externals as ChatExternals}
use openresponses.ChatCompletions.Stream.{Decoded, Ending}
use openresponses.ChatCompletions.Stream.{create_stream as chat_stream}
use openresponses.ChatCompletions.Outcome.{create_stream-Outcome}
use openresponses.ChatCompletions.Nameless.{nameless, nameless-panics}
use openresponses.ChatCompletions.Reread.{to_error-quota}
use openresponses.Gemini.Chunk.{Args, FinishReason, Segment, Part}
use openresponses.Gemini.Locate.{Texts, locate, byte_start, byte_end, locate_bounds}
use openresponses.Gemini.Decoder.{Externals as GeminiExternals}
use openresponses.Gemini.Stream.{Received}
use openresponses.Gemini.Stream.{create_stream as gemini_stream}
use openresponses.Gemini.Outcome.{gemini-Outcome}
use openresponses.Anthropic.Shapes.{TokenCounts, StopReason, Block, Delta, MessageEvent}
use openresponses.Anthropic.Decoder.{Externals as AnthropicExternals}
use openresponses.Anthropic.Stream.{Turn}
use openresponses.Anthropic.Stream.{create_stream as anthropic_stream}
use openresponses.Anthropic.Outcome.{anthropic-Outcome}

-- A wire form that loses nothing.
abbrev wire : StreamEvent → Option StreamEvent
wire = some

kept : (ev : StreamEvent) → wire ev ≡ some ev
kept ev = refl

abbrev blank : Response
blank = bare_response ResponseStatus.unset

-- Two identifiers are enough for an item.
abbrev ids : ℕ → String
ids n =
    if n == 0
    then "id_0"
    else if n == 1
    then "id_1"
    else if n == 2
    then "id_2"
    else if n == 3
    then "id_3"
    else "id_4"

abbrev decimal : ℤ → String
decimal (pos n) = if n == 402 then "402" else "0"
decimal (negsuc _) = "-1"

-- Chat completions: a text, and the end.
abbrev chat_externals : ChatExternals
chat_externals = record {
  ids = ids;
  itoa = decimal;
  int64 = λ s. none;
  citation_text = λ c. c.url;
  usage_text = λ u. "{}";
  now = 7;
}

abbrev texts : ErrorTexts
texts = record {
  itoa = decimal;
  atoi = λ s. if str_eq s "402" then some (pos 402) else none;
  to_lower = λ s. s;
  groups = λ re s. [];
}

abbrev says : String → String → Chunk
says text reason = record {
  model = "m";
  choices =
      record {
        index = pos 0;
        delta = record {
          content = some text;
          refusal = none;
          reasoning_content = none;
          reasoning = none;
          tool_calls = [];
          annotations = [];
        };
        finish_reason = reason;
        logprobs = none;
      }
      ∷ [];
  usage = none;
  error = none;
}

abbrev decode : String → Decoded
decode text =
    if str_eq text "call"
    then Decoded.valid (nameless (pos 0) "call_1" "{}" "tool_calls")
    else if str_eq text "end"
    then Decoded.valid (says "" "stop")
    else Decoded.valid (says text "")

abbrev clean : Ending
clean = record { read_error = none; cancelled = false }

abbrev frames : List Payload
frames = Payload.event "Hello" ∷ Payload.event "end" ∷ Payload.sentinel ∷ []

create_stream-Outcome_example :
    let r =
      chat_stream (sink wire) chat_externals texts decode new_sink "resp_1" blank frames clean in
    Outcome wire kept r.0.emitter r.1
create_stream-Outcome_example =
    create_stream-Outcome wire kept chat_externals texts decode "resp_1" blank frames clean refl

nameless-panics_example :
    (chat_stream
      (sink wire)
      chat_externals
      texts
      decode
      new_sink
      "resp_1"
      blank
      (Payload.event "call" ∷ Payload.sentinel ∷ [])
      clean).1
    ≡ some AdapterError.panicked
nameless-panics_example =
    nameless-panics (sink wire) chat_externals texts decode new_sink "resp_1" blank "call" (pos 0)
      "call_1" "{}" "tool_calls" clean refl

abbrev no_credit : ApiError
no_credit = record { message = "top up"; type = ""; code = Code.number (pos 402); param = "" }

to_error-quota_example :
    quota 402 (to_error texts no_credit 402).code (to_error texts no_credit 402).type
    ≡ ((to_error texts no_credit 402).code, (to_error texts no_credit 402).type)
to_error-quota_example = to_error-quota texts no_credit 402

-- Gemini: a thought, a text, and the end.
abbrev offsets : Texts
offsets = record {
  len = λ s. if str_eq s "Hello" then 5 else 2;
  index = λ s from t. some 1;
  rune_count = λ s from to. 1;
}

abbrev gemini_externals : GeminiExternals
gemini_externals = record {
  ids = ids;
  quoted = λ s. s;
  citation_text = λ c. c.url;
  usage_text = λ u. "{}";
  raw_text = λ type id part. part;
  now = 7;
  to_lower = λ s. s;
  reason_text = λ r. "OTHER";
  texts = offsets;
}

abbrev gemini_part : Bool → String → Part
gemini_part thought text = record {
  text = text;
  thought = thought;
  signature = "";
  function_call = none;
  kind = none;
  encoded = Args.absent;
}

abbrev answered : List Received
answered =
    Received.chunk (record {
      model_version = "gemini";
      usage_metadata = none;
      blocked = false;
      candidates =
          record {
            parts = gemini_part true "Hm" ∷ gemini_part false "Hello" ∷ [];
            logprobs = none;
            grounding = none;
            finish_reason = some FinishReason.stop;
            finish_message = "";
          }
          ∷ [];
    })
    ∷ []

gemini-Outcome_example :
    let r = gemini_stream (sink wire) gemini_externals new_sink "resp_1" blank answered in
    Outcome wire kept r.0.emitter r.1
gemini-Outcome_example = gemini-Outcome wire kept gemini_externals "resp_1" blank answered refl

abbrev backwards : Segment
backwards = record { text = ""; start_index = pos 9; end_index = negsuc 2 }

locate_bounds_example :
    (byte_start offsets "Hello" backwards 0 ≤ byte_end offsets "Hello" backwards 0)
    × (byte_end offsets "Hello" backwards 0 ≤ 5)
    × ((locate offsets "Hello" backwards 0).start ≤ (locate offsets "Hello" backwards 0).end)
locate_bounds_example = locate_bounds offsets "Hello" backwards 0

-- Anthropic: a turn that pauses, and one that ends.
abbrev anthropic_externals : AnthropicExternals
anthropic_externals = record {
  ids = ids;
  quoted = λ s. s;
  citation_text = λ c. c.url;
  usage_text = λ c. "{}";
  block_text = λ b. b.fields;
  raw_text = λ type id block. block;
  valid_json = λ s. true;
  now = 7;
}

abbrev two_tokens : TokenCounts
two_tokens = record {
  input = pos 1;
  cache_read = pos 0;
  cache_creation = pos 0;
  output = pos 1;
  thinking = pos 0;
}

abbrev turn : StopReason → Turn
turn reason = record {
  events =
      MessageEvent.message_start "claude" two_tokens none
      ∷ MessageEvent.block_start (Block.text "")
      ∷ MessageEvent.block_delta (Delta.text "Hello")
      ∷ MessageEvent.block_stop
      ∷ MessageEvent.message_delta (some reason) "" two_tokens
      ∷ MessageEvent.message_stop
      ∷ [];
  failure = none;
  encode_error = none;
}

abbrev turns : ℕ → Turn
turns zero = turn StopReason.pause_turn
turns (suc _) = turn StopReason.end_turn

anthropic-Outcome_example :
    let r = anthropic_stream (sink wire) anthropic_externals new_sink "resp_1" blank 1 turns in
    Outcome wire kept r.0.emitter r.1
anthropic-Outcome_example =
    anthropic-Outcome wire kept anthropic_externals "resp_1" blank 1 turns refl
