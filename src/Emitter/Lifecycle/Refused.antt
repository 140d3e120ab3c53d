-- ===== src/Emitter/Lifecycle/Refused.antt =====
-- emitter.go: calls that come too late, of a closed writer or after the terminal event.
use openresponses.Prelude.{String, ◌≡◌, refl, ap, Bool, true, false, none, some, List, length}
use openresponses.EventSink.{
  EventSink, SendError, Act, ◌>>◌, continue, fail_if, writer_closed, terminal_event_sent,
}
use openresponses.Emitter.Parts.{MessageWriter, FunctionCallWriter, ReasoningWriter}
use openresponses.Emitter.Writer.{
  text_part, refusal_part, message_text, message_annotation, message_logprobs, message_refusal,
  call_arguments, reasoning_summary, reasoning_text, end_summary, end_summary_of, close_message,
  close_call, close_reasoning, close_message_unless, close_call_unless, close_reasoning_unless,
}
use openresponses.Emitter.State.{Emitter}
use openresponses.Emitter.Calls.{before_item, before_terminal}

refused_then {ℓ} :
    {X : Type ℓ} (m l : Act X) (x : X) {e : SendError}
    → m x ≡ (x, some e)
    → (m >> l) x ≡ (x, some e)
refused_then m l x h = ap (λ r. continue r.0 r.1 l) h

refused_at {ℓ} :
    {X : Type ℓ} (b : Bool) (e : SendError) (l : Act X) (x : X)
    → b ≡ true
    → (fail_if b e >> l) x ≡ (x, some e)
refused_at true e l x h = refl
refused_at false e l x h = cc

module _ {S : Type 0} (k : EventSink S) (s : S) where
  module _ (w : MessageWriter) (closed : w.closed ≡ true) where
    text_part_closed : text_part k (w, s) ≡ ((w, s), some writer_closed)
    unfolding text_part
    text_part_closed = refused_at w.closed writer_closed _ (w, s) closed

    refusal_part_closed : refusal_part k (w, s) ≡ ((w, s), some writer_closed)
    unfolding refusal_part
    refusal_part_closed = refused_at w.closed writer_closed _ (w, s) closed

    pub message_text_closed : (d : String) → message_text k d (w, s) ≡ ((w, s), some writer_closed)
    unfolding message_text
    message_text_closed d = refused_then (text_part k) _ (w, s) text_part_closed

    pub message_annotation_closed :
        (x : String) → message_annotation k x (w, s) ≡ ((w, s), some writer_closed)
    unfolding message_annotation
    message_annotation_closed x = refused_then (text_part k) _ (w, s) text_part_closed

    pub message_logprobs_closed :
        (ls : List String) → message_logprobs k ls (w, s) ≡ ((w, s), some writer_closed)
    unfolding message_logprobs
    message_logprobs_closed ls = refused_then (text_part k) _ (w, s) text_part_closed

    pub message_refusal_closed :
        (d : String) → message_refusal k d (w, s) ≡ ((w, s), some writer_closed)
    unfolding message_refusal
    message_refusal_closed d = refused_then (refusal_part k) _ (w, s) refusal_part_closed

    pub close_message_closed : close_message k (w, s) ≡ ((w, s), none)
    unfolding close_message
    close_message_closed = ap (λ b. close_message_unless k b (w, s)) closed

  module _ (w : FunctionCallWriter) (closed : w.closed ≡ true) where
    pub call_arguments_closed :
        (d : String) → call_arguments k d (w, s) ≡ ((w, s), some writer_closed)
    unfolding call_arguments
    call_arguments_closed d = refused_at w.closed writer_closed _ (w, s) closed

    pub close_call_closed : close_call k (w, s) ≡ ((w, s), none)
    unfolding close_call
    close_call_closed = ap (λ b. close_call_unless k b (w, s)) closed

  module _ (w : ReasoningWriter) (closed : w.closed ≡ true) where
    pub reasoning_summary_closed :
        (d : String) → reasoning_summary k d (w, s) ≡ ((w, s), some writer_closed)
    unfolding reasoning_summary
    reasoning_summary_closed d = refused_at w.closed writer_closed _ (w, s) closed

    pub reasoning_text_closed :
        (d : String) → reasoning_text k d (w, s) ≡ ((w, s), some writer_closed)
    unfolding reasoning_text
    reasoning_text_closed d = refused_at w.closed writer_closed _ (w, s) closed

    pub close_reasoning_closed : close_reasoning k (w, s) ≡ ((w, s), none)
    unfolding close_reasoning
    close_reasoning_closed = ap (λ b. close_reasoning_unless k b (w, s)) closed

  pub end_summary-none :
      (w : ReasoningWriter) → w.summary ≡ none → end_summary k (w, s) ≡ ((w, s), none)
  unfolding end_summary
  end_summary-none w e = ap (λ o. end_summary_of k o (length w.item.summary) (w, s)) e

module _ {S : Type 0} (k : EventSink S) (e : Emitter S) (ended : e.terminal ≡ true) where
  before_item_ended : before_item k e ≡ (e, some terminal_event_sent)
  unfolding before_item
  before_item_ended = refused_at e.terminal terminal_event_sent _ e ended

  before_terminal_ended : before_terminal k e ≡ (e, some terminal_event_sent)
  unfolding before_terminal
  before_terminal_ended = refused_at e.terminal terminal_event_sent _ e ended

  pub before_item_ended_then :
      (l : Act (Emitter S)) → (before_item k >> l) e ≡ (e, some terminal_event_sent)
  before_item_ended_then l = refused_then (before_item k) l e before_item_ended

  pub before_terminal_ended_then :
      (l : Act (Emitter S)) → (before_terminal k >> l) e ≡ (e, some terminal_event_sent)
  before_terminal_ended_then l = refused_then (before_terminal k) l e before_terminal_ended
