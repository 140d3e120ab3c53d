-- ===== src/Emitter/Frame.antt =====
-- emitter.go, the methods of the writers: the properties that every send of a sink keeps.
use openresponses.Prelude.{
  ℕ, String, Bool, true, false, Option, none, some, List, [], ◌∷◌, length, pos,
}
use openresponses.Item.{Item, Content}
use openresponses.Event.{StreamEvent, is_some}
use openresponses.EventSink.{
  EventSink, SendError, Act, ◌>>◌, continue, fail_if, writer_closed, reasoning_finished,
}
use openresponses.Emitter.Parts.{
  MessageWriter, FunctionCallWriter, ReasoningWriter, is_text, is_refusal, empty_text,
  settle_summary,
}
use openresponses.Emitter.Writer.{
  emit, close_part_of, kind_done, close_part, open_part, reopen, text_part, message_text,
  message_annotation, message_logprobs, refusal_part, message_refusal, close_message,
  close_message_unless, call_arguments, close_call, close_call_unless, open_summary_unless,
  reasoning_summary, end_summary_of, end_summary, reasoning_text, end_text_of, end_text,
  close_reasoning_unless, close_reasoning,
}
pub mod Calls

module _ {S : Type 0} (k : EventSink S) (P : S → Type 0)
    (sends : (s : S) (ev : StreamEvent) → P s → P (k.send s ev).0) where
  module _ {W : Type 0} where
    abbrev pub Keeps : Act (W × S) → Type 0
    Keeps m = (x : W × S) → P x.1 → P (m x).0.1

    pub continue-Keeps :
        (x : W × S) (o : Option SendError) (l : Act (W × S))
        → P x.1
        → Keeps l
        → P (continue x o l).0.1
    continue-Keeps x none l p h = h x p
    continue-Keeps x (some e) l p h = p

    pub then-Keeps : (m l : Act (W × S)) → Keeps m → Keeps l → Keeps (m >> l)
    then-Keeps m l a b x p = continue-Keeps (m x).0 (m x).1 l (a x p) b

    pub fail_if-Keeps : (b : Bool) (e : SendError) → Keeps (fail_if b e)
    fail_if-Keeps true e x p = p
    fail_if-Keeps false e x p = p

    emit-Keeps : (ev : W → StreamEvent) → Keeps (emit k ev)
    emit-Keeps ev x p = sends x.1 (ev x.0) p

  kind_done-Keeps : (p : Content) (n : ℕ) → Keeps (kind_done k p n)
  kind_done-Keeps (Content.output_text p) n x h = sends _ _ h
  kind_done-Keeps (Content.refusal t) n x h = sends _ _ h
  kind_done-Keeps _ n x h = h

  close_part-Keeps : Keeps (close_part k)
  unfolding close_part
  close_part-Keeps (w, s) h = split w.part (length w.msg.content) (w, s) h
    where
      split : (o : Option Content) (n : ℕ) → Keeps (close_part_of k o n)
      split none n x h = h
      split (some p) n x h =
          then-Keeps (kind_done k p n) _ (kind_done-Keeps p n) (λ y q. sends _ _ q) _ h

  reopen-Keeps : (b : Bool) (p : Content) → Keeps (reopen k b p)
  unfolding reopen open_part
  reopen-Keeps true p x h = h
  reopen-Keeps false p x h = then-Keeps (close_part k) _ close_part-Keeps (λ y q. sends _ _ q) x h

  text_part-Keeps : Keeps (text_part k)
  unfolding text_part
  text_part-Keeps (w, s) =
      then-Keeps (fail_if w.closed writer_closed) _ (fail_if-Keeps w.closed writer_closed)
        (reopen-Keeps (is_text w.part) (Content.output_text empty_text)) (w, s)

  pub message_text-Keeps : (d : String) → Keeps (message_text k d)
  unfolding message_text
  message_text-Keeps d = then-Keeps (text_part k) _ text_part-Keeps (λ y q. sends _ _ q)

  pub message_annotation-Keeps : (x : String) → Keeps (message_annotation k x)
  unfolding message_annotation
  message_annotation-Keeps x = then-Keeps (text_part k) _ text_part-Keeps (λ y q. sends _ _ q)

  pub message_logprobs-Keeps : (ls : List String) → Keeps (message_logprobs k ls)
  unfolding message_logprobs
  message_logprobs-Keeps ls = then-Keeps (text_part k) _ text_part-Keeps (λ y q. q)

  refusal_part-Keeps : Keeps (refusal_part k)
  unfolding refusal_part
  refusal_part-Keeps (w, s) =
      then-Keeps (fail_if w.closed writer_closed) _ (fail_if-Keeps w.closed writer_closed)
        (reopen-Keeps (is_refusal w.part) (Content.refusal "")) (w, s)

  pub message_refusal-Keeps : (d : String) → Keeps (message_refusal k d)
  unfolding message_refusal
  message_refusal-Keeps d = then-Keeps (refusal_part k) _ refusal_part-Keeps (λ y q. sends _ _ q)

  close_message_unless-Keeps : (b : Bool) → Keeps (close_message_unless k b)
  unfolding close_part
  close_message_unless-Keeps true x h = h
  close_message_unless-Keeps false (w, s) h =
      then-Keeps (close_part k) _ close_part-Keeps (λ y q. sends _ _ q)
        (record w { closed = true }, s) h

  pub close_message-Keeps : Keeps (close_message k)
  unfolding close_message
  close_message-Keeps (w, s) = close_message_unless-Keeps w.closed (w, s)

  pub call_arguments-Keeps : (d : String) → Keeps (call_arguments k d)
  unfolding call_arguments
  call_arguments-Keeps d (w, s) =
      then-Keeps (fail_if w.closed writer_closed) _ (fail_if-Keeps w.closed writer_closed)
        (λ y q. sends _ _ q) (w, s)

  close_call_unless-Keeps : (b : Bool) → Keeps (close_call_unless k b)
  close_call_unless-Keeps true x h = h
  close_call_unless-Keeps false x h =
      then-Keeps
        (emit k λ (w : FunctionCallWriter).
          StreamEvent.function_call_arguments_done w.call.id (pos w.index) w.call.arguments)
        _ (λ y q. sends _ _ q) (λ y q. sends _ _ q) (record x.0 { closed = true }, x.1) h

  pub close_call-Keeps : Keeps (close_call k)
  unfolding close_call
  close_call-Keeps (w, s) = close_call_unless-Keeps w.closed (w, s)

  open_summary_unless-Keeps : (b : Bool) → Keeps (open_summary_unless k b)
  open_summary_unless-Keeps true x h = h
  open_summary_unless-Keeps false x h = sends _ _ h

  pub reasoning_summary-Keeps : (d : String) → Keeps (reasoning_summary k d)
  unfolding reasoning_summary
  reasoning_summary-Keeps d (w, s) =
      then-Keeps (fail_if w.closed writer_closed) _ (fail_if-Keeps w.closed writer_closed)
        (then-Keeps (open_summary_unless k (is_some w.summary)) _
          (open_summary_unless-Keeps (is_some w.summary)) (λ y q. sends _ _ q))
        (w, s)

  end_summary_of-Keeps : (o : Option String) (n : ℕ) → Keeps (end_summary_of k o n)
  end_summary_of-Keeps none n x h = h
  end_summary_of-Keeps (some t) n x h =
      then-Keeps
        (emit k λ (w : ReasoningWriter).
          StreamEvent.reasoning_summary_text_done w.item.id (pos w.index) (pos n) t)
        _ (λ y q. sends _ _ q) (λ y q. sends _ _ q) (settle_summary t x.0, x.1) h

  pub end_summary-Keeps : Keeps (end_summary k)
  unfolding end_summary
  end_summary-Keeps (w, s) = end_summary_of-Keeps w.summary (length w.item.summary) (w, s)

  pub reasoning_text-Keeps : (d : String) → Keeps (reasoning_text k d)
  unfolding reasoning_text
  reasoning_text-Keeps d (w, s) =
      then-Keeps (fail_if w.closed writer_closed) _ (fail_if-Keeps w.closed writer_closed)
        (then-Keeps (fail_if w.text_done reasoning_finished) _
          (fail_if-Keeps w.text_done reasoning_finished) (λ y q. sends _ _ q))
        (w, s)

  end_text_of-Keeps : (o : Option String) (b : Bool) → Keeps (end_text_of k o b)
  end_text_of-Keeps none b x h = h
  end_text_of-Keeps (some t) true x h = h
  end_text_of-Keeps (some t) false x h = sends _ _ h

  end_text-Keeps : Keeps (end_text k)
  unfolding end_text
  end_text-Keeps (w, s) = end_text_of-Keeps w.text_content w.text_done (w, s)

  close_reasoning_unless-Keeps : (b : Bool) → Keeps (close_reasoning_unless k b)
  unfolding end_summary end_text
  close_reasoning_unless-Keeps true x h = h
  close_reasoning_unless-Keeps false (w, s) h =
      then-Keeps (end_summary k) _ end_summary-Keeps
        (then-Keeps (end_text k) _ end_text-Keeps (λ y q. sends _ _ q))
        (record w { closed = true }, s) h

  pub close_reasoning-Keeps : Keeps (close_reasoning k)
  unfolding close_reasoning
  close_reasoning-Keeps (w, s) = close_reasoning_unless-Keeps w.closed (w, s)
