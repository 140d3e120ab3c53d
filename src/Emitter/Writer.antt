-- ===== src/Emitter/Writer.antt =====
-- emitter.go, the methods of `MessageWriter`, `FunctionCallWriter` and `ReasoningWriter`, as actions
-- on a writer and the state of the sink `k`.
use openresponses.Prelude.{ℕ, String, Bool, true, false, Option, none, some, List, [], length, pos}
use openresponses.Item.{Item, Content}
use openresponses.Event.{StreamEvent, is_some}
use openresponses.EventSink.{EventSink, Act, ◌>>◌, skip, fail_if, writer_closed, reasoning_finished}
use openresponses.Emitter.Parts.{
  MessageWriter, FunctionCallWriter, ReasoningWriter, message_of, reasoning_of, empty_text, non_nil,
  add_text, add_annotation, add_logprobs, add_refusal, on_open, annotation_index, append_delta,
  is_text, is_refusal, settle, finish_message, finish_call, finish_reasoning, settle_summary,
  or_empty, append_arguments,
}

module _ {S : Type 0} (k : EventSink S) where
  -- A send by a writer `w`: the event is made from the writer as it stands.
  abbrev pub emit {ℓ} : {W : Type ℓ} → (W → StreamEvent) → Act (W × S)
  emit ev (w, s) = ((w, (k.send s (ev w)).0), (k.send s (ev w)).1)

  abbrev pub edit {ℓ} : {W : Type ℓ} → (W → W) → Act (W × S)
  edit f (w, s) = ((f w, s), none)

  abbrev pub kind_done : Content → ℕ → Act (MessageWriter × S)
  kind_done (Content.output_text p) n = emit λ (w : MessageWriter).
      StreamEvent.output_text_done w.msg.id (pos w.index) (pos n) p.text (non_nil p.logprobs)
  kind_done (Content.refusal t) n =
      emit λ (w : MessageWriter). StreamEvent.refusal_done w.msg.id (pos w.index) (pos n) t
  kind_done _ n = skip

  abbrev pub close_part_of : Option Content → ℕ → Act (MessageWriter × S)
  close_part_of none n = skip
  close_part_of (some p) n =
      edit (settle p)
      >> kind_done p n
      >> emit λ (w : MessageWriter).
        StreamEvent.content_part_done w.msg.id (pos w.index) (pos n) (some p)

  -- `closePart`: the open part is the last one.
  unfoldable pub close_part : Act (MessageWriter × S)
  close_part (w, s) = close_part_of w.part (length w.msg.content) (w, s)

  -- `openPart`; the index is that of the new part.
  unfoldable pub open_part : Content → Act (MessageWriter × S)
  open_part p =
      edit (λ (w : MessageWriter). record w { part = some p })
      >> emit λ (w : MessageWriter).
        StreamEvent.content_part_added w.msg.id (pos w.index) (pos (length w.msg.content)) (some p)

  -- `p` is opened in place of the open part, unless that is of the kind wanted.
  unfoldable pub reopen : Bool → Content → Act (MessageWriter × S)
  unfolding close_part open_part
  reopen true p = skip
  reopen false p = close_part >> open_part p

  -- `textPart`.
  unfoldable pub text_part : Act (MessageWriter × S)
  unfolding reopen
  text_part (w, s) =
      (fail_if w.closed writer_closed >> reopen (is_text w.part) (Content.output_text empty_text))
        (w, s)

  abbrev pub edit_part : (Content → Content) → Act (MessageWriter × S)
  edit_part f = edit λ (w : MessageWriter). record w { part = on_open f w.part }

  -- `MessageWriter.Text`.
  unfoldable pub message_text : String → Act (MessageWriter × S)
  unfolding text_part
  message_text d =
      text_part
      >> edit_part (add_text d)
      >> emit λ (w : MessageWriter).
        StreamEvent.output_text_delta w.msg.id (pos w.index) (pos (length w.msg.content)) d []

  -- `MessageWriter.Annotation`.
  unfoldable pub message_annotation : String → Act (MessageWriter × S)
  unfolding text_part
  message_annotation x =
      text_part
      >> edit_part (add_annotation x)
      >> emit λ (w : MessageWriter).
        StreamEvent.output_text_annotation_added w.msg.id (pos w.index) (pos (length w.msg.content))
          (pos (annotation_index w.part)) (some x)

  -- `MessageWriter.Logprobs`.
  unfoldable pub message_logprobs : List String → Act (MessageWriter × S)
  unfolding text_part
  message_logprobs ls = text_part >> edit_part (add_logprobs ls)

  unfoldable pub refusal_part : Act (MessageWriter × S)
  unfolding reopen
  refusal_part (w, s) =
      (fail_if w.closed writer_closed >> reopen (is_refusal w.part) (Content.refusal "")) (w, s)

  -- `MessageWriter.Refusal`.
  unfoldable pub message_refusal : String → Act (MessageWriter × S)
  unfolding refusal_part
  message_refusal d =
      refusal_part
      >> edit_part (add_refusal d)
      >> emit λ (w : MessageWriter).
        StreamEvent.refusal_delta w.msg.id (pos w.index) (pos (length w.msg.content)) d

  abbrev pub close_message_unless : Bool → Act (MessageWriter × S)
  unfolding close_part
  close_message_unless true = skip
  close_message_unless false =
      edit (λ (w : MessageWriter). record w { closed = true })
      >> close_part
      >> edit finish_message
      >> emit λ (w : MessageWriter).
        StreamEvent.output_item_done (pos w.index) (some (Item.message (message_of w)))

  -- `MessageWriter.Close`.
  unfoldable pub close_message : Act (MessageWriter × S)
  unfolding close_part
  close_message (w, s) = close_message_unless w.closed (w, s)

  -- `FunctionCallWriter.Arguments`.
  unfoldable pub call_arguments : String → Act (FunctionCallWriter × S)
  call_arguments d (w, s) =
      (fail_if w.closed writer_closed
          >> edit (append_arguments d)
          >> emit λ (w' : FunctionCallWriter).
            StreamEvent.function_call_arguments_delta w'.call.id (pos w'.index) d)
        (w, s)

  abbrev pub close_call_unless : Bool → Act (FunctionCallWriter × S)
  close_call_unless true = skip
  close_call_unless false =
      edit (λ (w : FunctionCallWriter). record w { closed = true })
      >> (emit λ (w : FunctionCallWriter).
          StreamEvent.function_call_arguments_done w.call.id (pos w.index) w.call.arguments)
      >> edit finish_call
      >> emit λ (w : FunctionCallWriter).
        StreamEvent.output_item_done (pos w.index) (some (Item.function_call w.call))

  -- `FunctionCallWriter.Close`.
  unfoldable pub close_call : Act (FunctionCallWriter × S)
  close_call (w, s) = close_call_unless w.closed (w, s)

  abbrev pub open_summary_unless : Bool → Act (ReasoningWriter × S)
  open_summary_unless true = skip
  open_summary_unless false =
      edit (λ (w : ReasoningWriter). record w { summary = some "" })
      >> emit λ (w : ReasoningWriter).
        StreamEvent.reasoning_summary_part_added w.item.id (pos w.index)
          (pos (length w.item.summary)) (some (Content.summary_text ""))

  -- `ReasoningWriter.Summary`.
  unfoldable pub reasoning_summary : String → Act (ReasoningWriter × S)
  reasoning_summary d (w, s) =
      (fail_if w.closed writer_closed
          >> open_summary_unless (is_some w.summary)
          >> edit (λ (w' : ReasoningWriter). record w' { summary = append_delta w'.summary d })
          >> emit λ (w' : ReasoningWriter).
            StreamEvent.reasoning_summary_text_delta w'.item.id (pos w'.index)
              (pos (length w'.item.summary)) d)
        (w, s)

  abbrev pub end_summary_of : Option String → ℕ → Act (ReasoningWriter × S)
  end_summary_of none n = skip
  end_summary_of (some t) n =
      edit (settle_summary t)
      >> (emit λ (w : ReasoningWriter).
          StreamEvent.reasoning_summary_text_done w.item.id (pos w.index) (pos n) t)
      >> emit λ (w : ReasoningWriter).
        StreamEvent.reasoning_summary_part_done w.item.id (pos w.index) (pos n)
          (some (Content.summary_text t))

  -- `ReasoningWriter.EndSummary`: the open part is the last one.
  unfoldable pub end_summary : Act (ReasoningWriter × S)
  end_summary (w, s) = end_summary_of w.summary (length w.item.summary) (w, s)

  -- `ReasoningWriter.Text`. The content holds the one text, at index 0 behind what was there.
  unfoldable pub reasoning_text : String → Act (ReasoningWriter × S)
  reasoning_text d (w, s) =
      (fail_if w.closed writer_closed
          >> fail_if w.text_done reasoning_finished
          >> edit (λ (w' : ReasoningWriter). record w' {
            text_content = append_delta (or_empty w'.text_content) d;
          })
          >> emit λ (w' : ReasoningWriter).
            StreamEvent.reasoning_delta w'.item.id (pos w'.index) (pos (length w'.item.content)) d)
        (w, s)

  abbrev pub end_text_of : Option String → Bool → Act (ReasoningWriter × S)
  end_text_of none _ = skip
  end_text_of (some t) true = skip
  end_text_of (some t) false =
      edit (λ (w : ReasoningWriter). record w { text_done = true })
      >> emit λ (w : ReasoningWriter).
        StreamEvent.reasoning_done w.item.id (pos w.index) (pos (length w.item.content)) t

  unfoldable pub end_text : Act (ReasoningWriter × S)
  end_text (w, s) = end_text_of w.text_content w.text_done (w, s)

  abbrev pub close_reasoning_unless : Bool → Act (ReasoningWriter × S)
  unfolding end_summary end_text
  close_reasoning_unless true = skip
  close_reasoning_unless false =
      edit (λ (w : ReasoningWriter). record w { closed = true })
      >> end_summary
      >> end_text
      >> edit finish_reasoning
      >> emit λ (w : ReasoningWriter).
        StreamEvent.output_item_done (pos w.index) (some (Item.reasoning (reasoning_of w)))

  -- `ReasoningWriter.Close`.
  unfoldable pub close_reasoning : Act (ReasoningWriter × S)
  unfolding end_summary end_text
  close_reasoning (w, s) = close_reasoning_unless w.closed (w, s)
