-- ===== src/Emitter/Frame/Calls.antt =====
-- emitter.go, the calls of an adapter: the properties that every send of a sink keeps.
use openresponses.Prelude.{
  ℕ, String, Bool, true, false, Option, none, some, List, [], ◌∷◌, ◌++◌, length, pos,
}
use openresponses.Item.{Item, Items, ReasoningItem}
use openresponses.Event.{StreamEvent}
use openresponses.EventSink.{
  EventSink, SendError, Act, ◌>>◌, continue, fail_if, terminal_event_sent,
}
use openresponses.Emitter.Parts.{
  MessageWriter, FunctionCallWriter, ReasoningWriter, set_encrypted, change_extra,
}
use openresponses.Emitter.Writer.{
  message_text, message_annotation, message_logprobs, message_refusal, close_message,
  call_arguments, close_call, reasoning_summary, end_summary, reasoning_text, close_reasoning,
}
use openresponses.Emitter.State.{
  Writer, Emitter, current, mark_incomplete, new_message, new_call, new_reasoning,
}
use openresponses.Emitter.Calls.{
  emits, Call, perform, run, start, start_unless, close_writer, close_open, before_item,
  before_terminal, opened, announce, open_writer, put_whole, add_whole, whole_item, complete,
  incomplete, as_message, as_call, as_reasoning, close_as, end_summary_as, amend_as,
}
use openresponses.Emitter.Frame.{
  Keeps, message_text-Keeps, message_annotation-Keeps, message_logprobs-Keeps,
  message_refusal-Keeps, close_message-Keeps, call_arguments-Keeps, close_call-Keeps,
  reasoning_summary-Keeps, end_summary-Keeps, reasoning_text-Keeps, close_reasoning-Keeps,
}

module _ {S : Type 0} (k : EventSink S) (P : S → Type 0)
    (sends : (s : S) (ev : StreamEvent) → P s → P (k.send s ev).0) where
  abbrev pub Stays : Act (Emitter S) → Type 0
  Stays m = (e : Emitter S) → P e.sink → P (m e).0.sink

  pub continue-Stays :
      (e : Emitter S) (o : Option SendError) (l : Act (Emitter S))
      → P e.sink
      → Stays l
      → P (continue e o l).0.sink
  continue-Stays e none l p h = h e p
  continue-Stays e (some err) l p h = p

  -- The rule for a first action that brings the property about.
  pub begin-Stays :
      (m l : Act (Emitter S)) (e : Emitter S) → P (m e).0.sink → Stays l → P ((m >> l) e).0.sink
  begin-Stays m l e p h = continue-Stays (m e).0 (m e).1 l p h

  pub then-Stays : (m l : Act (Emitter S)) → Stays m → Stays l → Stays (m >> l)
  then-Stays m l a b e p = continue-Stays (m e).0 (m e).1 l (a e p) b

  fail_if-Stays : (b : Bool) (err : SendError) → Stays (fail_if b err)
  fail_if-Stays true err e p = p
  fail_if-Stays false err e p = p

  start-Stays : Stays (start k)
  unfolding start
  start-Stays e = split e.started e
    where
      split : (b : Bool) → Stays (start_unless k b)
      split true e h = h
      split false e h =
          then-Stays (emits k (λ e'. StreamEvent.response_created (some (current e')))) _
            (λ y q. sends _ _ q) (λ y q. sends _ _ q) (record e { started = true }) h

  close_writer-Stays : (o : Option Writer) → Stays (close_writer k o)
  unfolding close_message close_call close_reasoning
  close_writer-Stays none e h = h
  close_writer-Stays (some (Writer.message w)) e h = close_message-Keeps k P sends (w, e.sink) h
  close_writer-Stays (some (Writer.call w)) e h = close_call-Keeps k P sends (w, e.sink) h
  close_writer-Stays (some (Writer.reasoning w)) e h = close_reasoning-Keeps k P sends (w, e.sink) h

  pub close_open-Stays : Stays (close_open k)
  unfolding close_open
  close_open-Stays e = close_writer-Stays e.open_writer e

  -- What comes after the check for a terminal event, `Start` and `closeOpen`.
  prepared-Stays :
      (b : Bool) (l : Act (Emitter S))
      → Stays l
      → Stays ((fail_if b terminal_event_sent >> start k >> close_open k) >> l)
  prepared-Stays b l h =
      then-Stays (fail_if b terminal_event_sent >> start k >> close_open k) l
        (then-Stays (fail_if b terminal_event_sent) _ (fail_if-Stays b terminal_event_sent)
          (then-Stays (start k) (close_open k) start-Stays close_open-Stays))
        h

  pub announce-Stays : (new : ℕ → Writer) → Stays (announce k new)
  announce-Stays new e h = split (new (length e.resp.output)) (k.send e.sink _) (sends _ _ h)
    where
      split : (w : Writer) (r : S × Option SendError) → P r.0 → P (opened k w e r).0.sink
      split w (s, none) p = p
      split w (s, some err) p = p

  open_writer-Stays : (new : ℕ → Writer) → Stays (open_writer k new)
  unfolding open_writer before_item
  open_writer-Stays new e = prepared-Stays e.terminal (announce k new) (announce-Stays new) e

  pub put_whole-Stays : (i : Item) (out : Items) (n : ℕ) → Stays (put_whole k i out n)
  put_whole-Stays i out n e h =
      then-Stays (emits k (λ e'. StreamEvent.output_item_added (pos n) (some i))) _
        (λ y q. sends _ _ q) (λ y q. sends _ _ q)
        (record e { resp = record e.resp { output = out ++ some i ∷ [] } }) h

  whole_item-Stays : (i : Item) → Stays (whole_item k i)
  unfolding whole_item before_item
  whole_item-Stays i e =
      prepared-Stays e.terminal (add_whole k i)
        (λ e' h. put_whole-Stays i e'.resp.output (length e'.resp.output) e' h) e

  complete-Stays : (now : ℕ) → Stays (complete k now)
  unfolding complete before_terminal
  complete-Stays now e = prepared-Stays e.terminal _ (λ y q. sends _ _ q) e

  incomplete-Stays : (now : ℕ) (reason : String) → Stays (incomplete k now reason)
  unfolding incomplete before_terminal
  incomplete-Stays now reason e =
      prepared-Stays e.terminal _ (λ y q. sends _ _ q)
        (record e { open_writer = mark_incomplete e.open_writer })

  as_message-Stays :
      (m : Act (MessageWriter × S)) (o : Option Writer)
      → Keeps k P sends m
      → Stays (as_message k m o)
  as_message-Stays m (some (Writer.message w)) h e p = h (w, e.sink) p
  as_message-Stays m (some (Writer.call w)) h e p = p
  as_message-Stays m (some (Writer.reasoning w)) h e p = p
  as_message-Stays m none h e p = p

  as_call-Stays :
      (m : Act (FunctionCallWriter × S)) (o : Option Writer)
      → Keeps k P sends m
      → Stays (as_call k m o)
  as_call-Stays m (some (Writer.call w)) h e p = h (w, e.sink) p
  as_call-Stays m (some (Writer.message w)) h e p = p
  as_call-Stays m (some (Writer.reasoning w)) h e p = p
  as_call-Stays m none h e p = p

  as_reasoning-Stays :
      (m : Act (ReasoningWriter × S)) (o : Option Writer)
      → Keeps k P sends m
      → Stays (as_reasoning k m o)
  as_reasoning-Stays m (some (Writer.reasoning w)) h e p = h (w, e.sink) p
  as_reasoning-Stays m (some (Writer.message w)) h e p = p
  as_reasoning-Stays m (some (Writer.call w)) h e p = p
  as_reasoning-Stays m none h e p = p

  close_as-Stays : (o : Option Writer) → Stays (close_as k o)
  unfolding close_message close_call close_reasoning
  close_as-Stays none e p = p
  close_as-Stays (some (Writer.message w)) e p = close_message-Keeps k P sends (w, e.sink) p
  close_as-Stays (some (Writer.call w)) e p = close_call-Keeps k P sends (w, e.sink) p
  close_as-Stays (some (Writer.reasoning w)) e p = close_reasoning-Keeps k P sends (w, e.sink) p

  end_summary_as-Stays : (o : Option Writer) → Stays (end_summary_as k o)
  unfolding end_summary
  end_summary_as-Stays none e p = p
  end_summary_as-Stays (some (Writer.message w)) e p = p
  end_summary_as-Stays (some (Writer.call w)) e p = p
  end_summary_as-Stays (some (Writer.reasoning w)) e p = end_summary-Keeps k P sends (w, e.sink) p

  amend_as-Stays : (f : ReasoningItem → ReasoningItem) (o : Option Writer) → Stays (amend_as k f o)
  amend_as-Stays f (some (Writer.reasoning w)) e p = p
  amend_as-Stays f none e p = p
  amend_as-Stays f (some (Writer.message w)) e p = p
  amend_as-Stays f (some (Writer.call w)) e p = p

  -- Every call keeps what every send keeps.
  pub perform-Stays : (call : Call) → Stays (perform k call)
  unfolding perform
  perform-Stays Call.starts e = start-Stays e
  perform-Stays Call.closes e = close_as-Stays e.open_writer e
  perform-Stays Call.ends_summary e = end_summary_as-Stays e.open_writer e
  perform-Stays (Call.message id phase) e = open_writer-Stays (new_message id phase) e
  perform-Stays (Call.function_call id fresh call_id name) e =
      open_writer-Stays (new_call id fresh call_id name) e
  perform-Stays (Call.reasoning id extra) e = open_writer-Stays (new_reasoning id extra) e
  perform-Stays (Call.whole i) e = whole_item-Stays i e
  perform-Stays (Call.text d) e =
      as_message-Stays (message_text k d) e.open_writer (message_text-Keeps k P sends d) e
  perform-Stays (Call.annotation x) e =
      as_message-Stays (message_annotation k x) e.open_writer (message_annotation-Keeps k P sends x)
        e
  perform-Stays (Call.refusal d) e =
      as_message-Stays (message_refusal k d) e.open_writer (message_refusal-Keeps k P sends d) e
  perform-Stays (Call.logprobs ls) e =
      as_message-Stays (message_logprobs k ls) e.open_writer (message_logprobs-Keeps k P sends ls) e
  perform-Stays (Call.arguments d) e =
      as_call-Stays (call_arguments k d) e.open_writer (call_arguments-Keeps k P sends d) e
  perform-Stays (Call.summary d) e =
      as_reasoning-Stays (reasoning_summary k d) e.open_writer (reasoning_summary-Keeps k P sends d)
        e
  perform-Stays (Call.reasoning_delta d) e =
      as_reasoning-Stays (reasoning_text k d) e.open_writer (reasoning_text-Keeps k P sends d) e
  perform-Stays (Call.encrypted_content s) e = amend_as-Stays (set_encrypted s) e.open_writer e
  perform-Stays (Call.changes_extra f) e = amend_as-Stays (change_extra f) e.open_writer e
  perform-Stays (Call.completes now) e = complete-Stays now e
  perform-Stays (Call.incompletes now reason) e = incomplete-Stays now reason e

  pub run-Stays : (calls : List Call) (e : Emitter S) → P e.sink → P (run k e calls).sink
  unfolding run
  run-Stays [] e p = p
  run-Stays (call ∷ calls) e p = run-Stays calls (perform k call e).0 (perform-Stays call e p)
