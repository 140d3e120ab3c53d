-- ===== src/ChatCompletions/Deltas.antt =====
-- chatcompletions/response.go, `decoder`: the tool calls, the deltas and the chunks of a stream,
-- and its end.
use openresponses.Prelude.{
  String, str_eq, str_append, if◌then◌else◌, Bool, true, false, not, ◌||◌, Option, none, some, List,
  [], ◌∷◌, ℤ, pos,
}
use openresponses.EventSink.{EventSink}
use openresponses.Int64.{ltb_ℤ, eq_ℤ}
use openresponses.Emitter.Calls.{Call}
use openresponses.Adapter.Steps.{
  AdapterError, server_error, model_error, ◌>>◌, skip, stop, when, sets_model, sets_usage, each,
  calls,
}
use openresponses.ChatCompletions.Chunk.{Chunk, Choice, Delta, ToolCallDelta, Annotation, WireUsage}
use openresponses.Adapter.Shapes.{UrlCitation}
use openresponses.ChatCompletions.Usage.{map_usage}
use openresponses.ChatCompletions.Decoder.{
  Decode, sets_call, sets_finished, marks_seen, open_call, end_call, close_call, close_open,
  open_message, on_message, open_reasoning, or_reasoning, is_empty, text_or_empty, CallState,
  Externals,
}

module _ {S : Type 0} (k : EventSink S) (x : Externals) where
  abbrev pub resumed : ℤ → ℤ → AdapterError
  resumed later earlier = server_error "invalid_upstream_response" (
      str_append "tool call " (
        str_append (x.itoa later)
          (str_append " resumed after tool call " (str_append (x.itoa earlier) " started"))))

  -- A delta of another call than the current one.
  abbrev pub switch_call : Option CallState → ToolCallDelta → Decode k x
  switch_call none tc = skip
  switch_call (some c) tc =
      if eq_ℤ tc.index c.index
      then skip
      else if ltb_ℤ tc.index c.index
      then stop (resumed tc.index c.index)
      else close_call k x

  abbrev pub begin_call : Option CallState → ToolCallDelta → Decode k x
  begin_call (some c) tc = skip
  begin_call none tc =
      close_open k x
      >> sets_call k x
          (some (record { index = tc.index; id = ""; name = ""; buffered = ""; opened = false }))

  abbrev pub named : ToolCallDelta → CallState → CallState
  named tc c = record c {
    id = if is_empty tc.id then c.id else tc.id;
    name = str_append c.name tc.name;
  }

  abbrev pub extend_call : Bool → CallState → ToolCallDelta → Decode k x
  extend_call true c tc = when (not (is_empty tc.arguments)) (calls k (Call.arguments tc.arguments))
  extend_call false c tc =
      sets_call k x (some (record c { buffered = str_append c.buffered tc.arguments }))
      >> when (not (is_empty c.name)) (open_call k x)

  abbrev pub continue_call : Option CallState → ToolCallDelta → Decode k x
  continue_call none tc = skip
  continue_call (some c) tc =
      sets_call k x (some (named tc c)) >> extend_call c.opened (named tc c) tc

  -- `toolCall`.
  unfoldable pub tool_call : ToolCallDelta → Decode k x
  unfolding open_call close_call close_open
  tool_call tc =
      (λ f. switch_call f.decoder.call tc f)
      >> (λ f. begin_call f.decoder.call tc f)
      >> (λ f. continue_call f.decoder.call tc f)

  abbrev pub annotate : Option UrlCitation → Decode k x
  annotate none = skip
  annotate (some c) = on_message k x (Call.annotation (x.citation_text c))

  abbrev pub annotation : Annotation → Decode k x
  annotation a = when (str_eq a.type "url_citation") (annotate a.url_citation)

  abbrev pub reason : String → Decode k x
  reason text =
      when (not (is_empty text)) (open_reasoning k x >> calls k (Call.reasoning_delta text))

  abbrev pub write : (String → Call) → String → Decode k x
  write c text = when (not (is_empty text)) (on_message k x (c text))

  -- `decoder.delta`.
  unfoldable pub delta : Delta → Decode k x
  unfolding open_message close_open tool_call each
  delta dl =
      reason (or_reasoning dl.reasoning_content dl.reasoning)
      >> write (λ t. Call.text t) (text_or_empty dl.content)
      >> write (λ t. Call.refusal t) (text_or_empty dl.refusal)
      >> each tool_call dl.tool_calls
      >> each annotation dl.annotations

  abbrev pub add_logprobs : Option (List String) → Decode k x
  add_logprobs none = skip
  add_logprobs (some []) = skip
  add_logprobs (some (l ∷ ls)) = on_message k x (Call.logprobs (l ∷ ls))

  -- One round of the loop over the choices; a request has one.
  abbrev pub choice : Choice → Decode k x
  choice c = when (eq_ℤ c.index (pos 0)) (
      delta c.delta
      >> add_logprobs c.logprobs
      >> when (not (is_empty c.finish_reason)) (sets_finished k x c.finish_reason))

  abbrev pub first_chunk : Bool → String → Decode k x
  first_chunk true model = skip
  first_chunk false model = marks_seen k x >> when (not (is_empty model)) (sets_model model)

  abbrev pub count_usage : Option WireUsage → Decode k x
  count_usage none = skip
  count_usage (some u) = sets_usage (x.usage_text (map_usage x.itoa x.int64 u))

  -- `decoder.chunk`.
  unfoldable pub chunk : Chunk → Decode k x
  unfolding delta open_message map_usage each
  chunk c =
      (λ f. first_chunk f.decoder.seen c.model f) >> count_usage c.usage >> each choice c.choices

  abbrev pub finish_with : String → Decode k x
  finish_with reason =
      if str_eq reason "stop" || str_eq reason "tool_calls" || str_eq reason "function_call"
      then calls k (Call.completes x.now)
      else if str_eq reason "length"
      then calls k (Call.incompletes x.now "max_output_tokens")
      else if str_eq reason "content_filter"
      then calls k (Call.incompletes x.now "content_filter")
      else if is_empty reason
      then stop (server_error "truncated_stream" "the stream ended without a finish reason")
      else stop (model_error reason (str_append "the model stopped generating: " reason))

  -- `decoder.finish`.
  unfoldable pub finish : Decode k x
  unfolding end_call
  finish = end_call k x skip >> (λ f. finish_with f.decoder.finished f)
