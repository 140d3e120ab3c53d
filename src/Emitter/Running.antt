-- ===== src/Emitter/Running.antt =====
-- emitter.go: the calls that do not end the response.
use openresponses.Prelude.{ℕ, ◌≡◌, refl, ◌∙◌, Bool, true, false, Option, none, some, length}
use openresponses.Item.{Item, ReasoningItem}
use openresponses.EventSink.{
  EventSink, SendError, Act, ◌>>◌, continue, fail_if, terminal_event_sent,
}
use openresponses.Emitter.Parts.{
  MessageWriter, FunctionCallWriter, ReasoningWriter, set_encrypted, change_extra,
}
use openresponses.Emitter.State.{Writer, Emitter, new_message, new_call, new_reasoning}
use openresponses.Emitter.Calls.{
  Call, perform, start, start_unless, close_open, close_writer, before_item, opened, announce,
  open_writer, add_whole, whole_item, as_message, as_call, as_reasoning, close_as, end_summary_as,
  amend_as,
}
use openresponses.Emitter.Writer.{
  end_summary, close_message, close_call, close_reasoning, message_text, message_annotation,
  message_refusal, message_logprobs, call_arguments, reasoning_summary, reasoning_text,
}

-- `Complete` and `Incomplete`.
abbrev pub is_ending : Call → Bool
is_ending (Call.completes _) = true
is_ending (Call.incompletes _ _) = true
is_ending _ = false

module _ {S : Type 0} (k : EventSink S) where
  abbrev pub Unended : Act (Emitter S) → Type 0
  Unended m = (e : Emitter S) → (m e).0.terminal ≡ e.terminal

  continue-Unended :
      (e : Emitter S) (o : Option SendError) (l : Act (Emitter S))
      → Unended l
      → (continue e o l).0.terminal ≡ e.terminal
  continue-Unended e none l h = h e
  continue-Unended e (some err) l h = refl

  then-Unended : (m l : Act (Emitter S)) → Unended m → Unended l → Unended (m >> l)
  then-Unended m l a b e = continue-Unended (m e).0 (m e).1 l b ∙ a e

  fail_if-Unended : (b : Bool) (err : SendError) → Unended (fail_if b err)
  fail_if-Unended true err e = refl
  fail_if-Unended false err e = refl

  start_unless-Unended : (b : Bool) → Unended (start_unless k b)
  start_unless-Unended true e = refl
  start_unless-Unended false e = continue-Unended _ _ _ (λ y. refl)

  start-Unended : Unended (start k)
  unfolding start
  start-Unended e = start_unless-Unended e.started e

  close_writer-Unended : (o : Option Writer) → Unended (close_writer k o)
  unfolding close_message close_call close_reasoning
  close_writer-Unended none e = refl
  close_writer-Unended (some (Writer.message w)) e = refl
  close_writer-Unended (some (Writer.call w)) e = refl
  close_writer-Unended (some (Writer.reasoning w)) e = refl

  close_open-Unended : Unended (close_open k)
  unfolding close_open
  close_open-Unended e = close_writer-Unended e.open_writer e

  before_item-Unended : Unended (before_item k)
  unfolding before_item
  before_item-Unended e =
      then-Unended (fail_if e.terminal terminal_event_sent) _
        (fail_if-Unended e.terminal terminal_event_sent)
        (then-Unended (start k) (close_open k) start-Unended close_open-Unended) e

  announce-Unended : (new : ℕ → Writer) → Unended (announce k new)
  announce-Unended new e = split (new (length e.resp.output)) (k.send e.sink _)
    where
      split : (w : Writer) (r : S × Option SendError) → (opened k w e r).0.terminal ≡ e.terminal
      split w (s, none) = refl
      split w (s, some err) = refl

  open_writer-Unended : (new : ℕ → Writer) → Unended (open_writer k new)
  unfolding open_writer
  open_writer-Unended new =
      then-Unended (before_item k) (announce k new) before_item-Unended (announce-Unended new)

  whole_item-Unended : (i : Item) → Unended (whole_item k i)
  unfolding whole_item
  whole_item-Unended i =
      then-Unended (before_item k) (add_whole k i) before_item-Unended
        (λ e. continue-Unended _ _ _ (λ y. refl))

  as_message-Unended :
      (m : Act (MessageWriter × S)) (o : Option Writer) → Unended (as_message k m o)
  as_message-Unended m (some (Writer.message w)) e = refl
  as_message-Unended m (some (Writer.call w)) e = refl
  as_message-Unended m (some (Writer.reasoning w)) e = refl
  as_message-Unended m none e = refl

  as_call-Unended : (m : Act (FunctionCallWriter × S)) (o : Option Writer) → Unended (as_call k m o)
  as_call-Unended m (some (Writer.call w)) e = refl
  as_call-Unended m (some (Writer.message w)) e = refl
  as_call-Unended m (some (Writer.reasoning w)) e = refl
  as_call-Unended m none e = refl

  as_reasoning-Unended :
      (m : Act (ReasoningWriter × S)) (o : Option Writer) → Unended (as_reasoning k m o)
  as_reasoning-Unended m (some (Writer.reasoning w)) e = refl
  as_reasoning-Unended m (some (Writer.message w)) e = refl
  as_reasoning-Unended m (some (Writer.call w)) e = refl
  as_reasoning-Unended m none e = refl

  close_as-Unended : (o : Option Writer) → Unended (close_as k o)
  unfolding close_message close_call close_reasoning
  close_as-Unended none e = refl
  close_as-Unended (some (Writer.message w)) e = refl
  close_as-Unended (some (Writer.call w)) e = refl
  close_as-Unended (some (Writer.reasoning w)) e = refl

  end_summary_as-Unended : (o : Option Writer) → Unended (end_summary_as k o)
  unfolding end_summary
  end_summary_as-Unended none e = refl
  end_summary_as-Unended (some (Writer.message w)) e = refl
  end_summary_as-Unended (some (Writer.call w)) e = refl
  end_summary_as-Unended (some (Writer.reasoning w)) e = refl

  amend_as-Unended :
      (f : ReasoningItem → ReasoningItem) (o : Option Writer) → Unended (amend_as k f o)
  amend_as-Unended f none e = refl
  amend_as-Unended f (some (Writer.message w)) e = refl
  amend_as-Unended f (some (Writer.call w)) e = refl
  amend_as-Unended f (some (Writer.reasoning w)) e = refl

  -- Only `Complete` and `Incomplete` end the response.
  pub perform-Unended : (call : Call) → is_ending call ≡ false → Unended (perform k call)
  unfolding perform
  perform-Unended Call.starts h e = start-Unended e
  perform-Unended Call.closes h e = close_as-Unended e.open_writer e
  perform-Unended Call.ends_summary h e = end_summary_as-Unended e.open_writer e
  perform-Unended (Call.message id phase) h e = open_writer-Unended (new_message id phase) e
  perform-Unended (Call.function_call id fresh call_id name) h e =
      open_writer-Unended (new_call id fresh call_id name) e
  perform-Unended (Call.reasoning id extra) h e = open_writer-Unended (new_reasoning id extra) e
  perform-Unended (Call.whole i) h e = whole_item-Unended i e
  perform-Unended (Call.text d) h e = as_message-Unended (message_text k d) e.open_writer e
  perform-Unended (Call.annotation d) h e =
      as_message-Unended (message_annotation k d) e.open_writer e
  perform-Unended (Call.refusal d) h e = as_message-Unended (message_refusal k d) e.open_writer e
  perform-Unended (Call.logprobs d) h e = as_message-Unended (message_logprobs k d) e.open_writer e
  perform-Unended (Call.arguments d) h e = as_call-Unended (call_arguments k d) e.open_writer e
  perform-Unended (Call.summary d) h e =
      as_reasoning-Unended (reasoning_summary k d) e.open_writer e
  perform-Unended (Call.reasoning_delta d) h e =
      as_reasoning-Unended (reasoning_text k d) e.open_writer e
  perform-Unended (Call.encrypted_content s) h e =
      amend_as-Unended (set_encrypted s) e.open_writer e
  perform-Unended (Call.changes_extra f) h e = amend_as-Unended (change_extra f) e.open_writer e
  perform-Unended (Call.completes now) h e = cc
  perform-Unended (Call.incompletes now reason) h e = cc
