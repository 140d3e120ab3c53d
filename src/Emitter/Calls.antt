-- ===== src/Emitter/Calls.antt =====
-- emitter.go, `Emitter`: the calls that an adapter makes, each a method of the emitter or of the
-- writer that it opened last. Every other writer is closed, and the calls of a closed writer fail.
-- Random identifiers (`NewID`) and the clock's time are arguments.
use openresponses.Prelude.{
  ℕ, String, Bool, true, false, Option, none, some, List, [], ◌∷◌, ◌++◌, length, pos,
}
use openresponses.Item.{Item, Items, Extra, ReasoningItem}
use openresponses.Response.{complete_response, incomplete_response}
use openresponses.Event.{StreamEvent}
use openresponses.EventSink.{
  EventSink, SendError, Act, ◌>>◌, skip, fail_if, writer_closed, terminal_event_sent,
}
use openresponses.Emitter.Parts.{
  MessageWriter, FunctionCallWriter, ReasoningWriter, message_of, reasoning_of, set_encrypted,
  change_extra,
}
use openresponses.Emitter.State.{
  Writer, Emitter, current, finish_item, item_of, mark_incomplete, new_message, new_call,
  new_reasoning,
}
use openresponses.Emitter.Writer.{
  message_text, message_annotation, message_logprobs, message_refusal, close_message,
  call_arguments, close_call, reasoning_summary, end_summary, reasoning_text, close_reasoning,
}

module _ {S : Type 0} (k : EventSink S) where
  -- A send by the emitter.
  abbrev pub emits : (Emitter S → StreamEvent) → Act (Emitter S)
  emits ev e = let r = k.send e.sink (ev e) in (record e { sink = r.0 }, r.1)

  abbrev pub edits : (Emitter S → Emitter S) → Act (Emitter S)
  edits f e = (f e, none)

  abbrev pub start_unless : Bool → Act (Emitter S)
  start_unless true = skip
  start_unless false =
      edits (λ e. record e { started = true })
      >> emits (λ e. StreamEvent.response_created (some (current e)))
      >> emits (λ e. StreamEvent.response_in_progress (some (current e)))

  -- `Start`.
  unfoldable pub start : Act (Emitter S)
  start e = start_unless e.started e

  -- The item of a writer that is no longer open goes to the output.
  abbrev pub shut : Emitter S → Items → S → Option SendError → Emitter S × Option SendError
  shut e items s err = (
    record e {
      sink = s;
      resp = record e.resp { output = e.resp.output ++ items };
      open_writer = none;
    },
    err,
  )

  abbrev pub close_writer : Option Writer → Act (Emitter S)
  unfolding close_message close_call close_reasoning
  close_writer none e = (e, none)
  close_writer (some (Writer.message w)) e =
      let r = close_message k (w, e.sink) in
      shut e (some (Item.message (message_of r.0.0)) ∷ []) r.0.1 r.1
  close_writer (some (Writer.call w)) e =
      let r = close_call k (w, e.sink) in
      shut e (some (Item.function_call r.0.0.call) ∷ []) r.0.1 r.1
  close_writer (some (Writer.reasoning w)) e =
      let r = close_reasoning k (w, e.sink) in
      shut e (some (Item.reasoning (reasoning_of r.0.0)) ∷ []) r.0.1 r.1

  -- `closeOpen`.
  unfoldable pub close_open : Act (Emitter S)
  unfolding close_message close_call close_reasoning
  close_open e = close_writer e.open_writer e

  -- `openItem` up to the output: what is done before an item is announced.
  unfoldable pub before_item : Act (Emitter S)
  unfolding start close_open
  before_item e = (fail_if e.terminal terminal_event_sent >> start >> close_open) e

  abbrev pub opened : Writer → Emitter S → S × Option SendError → Emitter S × Option SendError
  opened w e (s, none) = (record e { sink = s; open_writer = some w }, none)
  opened w e (s, some err) = (
    record e { sink = s; resp = record e.resp { output = e.resp.output ++ some (item_of w) ∷ [] } },
    some err,
  )

  -- A new item at the end of the output; its writer is there only if the sink took the event.
  abbrev pub announce : (ℕ → Writer) → Act (Emitter S)
  announce new e =
      let w = new (length e.resp.output) in
      opened w e (
        k.send e.sink
          (StreamEvent.output_item_added (pos (length e.resp.output)) (some (item_of w))))

  -- `Message`, `FunctionCall` and `Reasoning`.
  unfoldable pub open_writer : (ℕ → Writer) → Act (Emitter S)
  unfolding before_item
  open_writer new = before_item >> announce new

  abbrev pub put_whole : Item → Items → ℕ → Act (Emitter S)
  put_whole i out n =
      edits (λ e. record e { resp = record e.resp { output = out ++ some i ∷ [] } })
      >> emits (λ e. StreamEvent.output_item_added (pos n) (some i))
      >> edits
          (λ e. record e { resp = record e.resp { output = out ++ some (finish_item i) ∷ [] } })
      >> emits (λ e. StreamEvent.output_item_done (pos n) (some (finish_item i)))

  abbrev pub add_whole : Item → Act (Emitter S)
  add_whole i e = put_whole i e.resp.output (length e.resp.output) e

  -- `Item`.
  unfoldable pub whole_item : Item → Act (Emitter S)
  unfolding before_item
  whole_item i = before_item >> add_whole i

  -- `beforeTerminal`.
  unfoldable pub before_terminal : Act (Emitter S)
  unfolding start close_open
  before_terminal e = (fail_if e.terminal terminal_event_sent >> start >> close_open) e

  -- `Complete`.
  unfoldable pub complete : ℕ → Act (Emitter S)
  unfolding before_terminal complete_response
  complete now =
      before_terminal
      >> edits (λ e. record e { resp = complete_response now e.resp; terminal = true })
      >> emits (λ e. StreamEvent.response_completed (some (current e)))

  -- `Incomplete`.
  unfoldable pub incomplete : ℕ → String → Act (Emitter S)
  unfolding before_terminal incomplete_response
  incomplete now reason =
      edits (λ e. record e { open_writer = mark_incomplete e.open_writer })
      >> before_terminal
      >> edits (λ e. record e { resp = incomplete_response now reason e.resp; terminal = true })
      >> emits (λ e. StreamEvent.response_incomplete (some (current e)))

  -- A call of the open writer; a writer of another kind is an old one, and so it is closed.
  abbrev with_writer : Emitter S → Writer → S → Option SendError → Emitter S × Option SendError
  with_writer e w s err = (record e { sink = s; open_writer = some w }, err)

  abbrev pub as_message : Act (MessageWriter × S) → Option Writer → Act (Emitter S)
  as_message m (some (Writer.message w)) e =
      let r = m (w, e.sink) in with_writer e (Writer.message r.0.0) r.0.1 r.1
  as_message m _ e = (e, some writer_closed)

  abbrev pub as_call : Act (FunctionCallWriter × S) → Option Writer → Act (Emitter S)
  as_call m (some (Writer.call w)) e =
      let r = m (w, e.sink) in with_writer e (Writer.call r.0.0) r.0.1 r.1
  as_call m _ e = (e, some writer_closed)

  abbrev pub as_reasoning : Act (ReasoningWriter × S) → Option Writer → Act (Emitter S)
  as_reasoning m (some (Writer.reasoning w)) e =
      let r = m (w, e.sink) in with_writer e (Writer.reasoning r.0.0) r.0.1 r.1
  as_reasoning m _ e = (e, some writer_closed)

  -- `Close` of the open writer, which stays the emitter's open one.
  abbrev pub close_as : Option Writer → Act (Emitter S)
  unfolding close_message close_call close_reasoning
  close_as none e = (e, none)
  close_as (some (Writer.message w)) e = as_message (close_message k) (some (Writer.message w)) e
  close_as (some (Writer.call w)) e = as_call (close_call k) (some (Writer.call w)) e
  close_as (some (Writer.reasoning w)) e =
      as_reasoning (close_reasoning k) (some (Writer.reasoning w)) e

  -- `EndSummary` of a writer that is closed, or of another kind, finds no open summary.
  abbrev pub end_summary_as : Option Writer → Act (Emitter S)
  unfolding end_summary
  end_summary_as (some (Writer.reasoning w)) e =
      as_reasoning (end_summary k) (some (Writer.reasoning w)) e
  end_summary_as _ e = (e, none)

  -- A change of the item that the open reasoning writer's `Item` returns.
  abbrev pub amend_as : (ReasoningItem → ReasoningItem) → Option Writer → Act (Emitter S)
  amend_as f (some (Writer.reasoning w)) e =
      (record e { open_writer = some (Writer.reasoning (record w { item = f w.item })) }, none)
  amend_as f _ e = (e, none)

-- The calls of an adapter. Identifiers and times are given with the call.
pub data Call : Type 0 where
  starts closes ends_summary : Call
  message : String → String → Call
  function_call : String → String → String → String → Call
  reasoning : String → Extra → Call
  whole : Item → Call
  text annotation refusal arguments summary reasoning_delta encrypted_content : String → Call
  changes_extra : (Extra → Extra) → Call
  logprobs : List String → Call
  completes : ℕ → Call
  incompletes : ℕ → String → Call

module _ {S : Type 0} (k : EventSink S) where
  unfoldable pub perform : Call → Act (Emitter S)
  unfolding start open_writer whole_item message_text message_annotation message_logprobs
      message_refusal close_message call_arguments close_call reasoning_summary end_summary
      reasoning_text close_reasoning complete incomplete
  perform Call.starts e = start k e
  perform Call.closes e = close_as k e.open_writer e
  perform Call.ends_summary e = end_summary_as k e.open_writer e
  perform (Call.message id phase) e = open_writer k (new_message id phase) e
  perform (Call.function_call id fresh call_id name) e =
      open_writer k (new_call id fresh call_id name) e
  perform (Call.reasoning id extra) e = open_writer k (new_reasoning id extra) e
  perform (Call.whole i) e = whole_item k i e
  perform (Call.text d) e = as_message k (message_text k d) e.open_writer e
  perform (Call.annotation x) e = as_message k (message_annotation k x) e.open_writer e
  perform (Call.refusal d) e = as_message k (message_refusal k d) e.open_writer e
  perform (Call.arguments d) e = as_call k (call_arguments k d) e.open_writer e
  perform (Call.summary d) e = as_reasoning k (reasoning_summary k d) e.open_writer e
  perform (Call.reasoning_delta d) e = as_reasoning k (reasoning_text k d) e.open_writer e
  perform (Call.logprobs ls) e = as_message k (message_logprobs k ls) e.open_writer e
  perform (Call.encrypted_content s) e = amend_as k (set_encrypted s) e.open_writer e
  perform (Call.changes_extra f) e = amend_as k (change_extra f) e.open_writer e
  perform (Call.completes now) e = complete k now e
  perform (Call.incompletes now reason) e = incomplete k now reason e

  -- An adapter that goes on after an error makes its next call on the state left behind.
  unfoldable pub run : Emitter S → List Call → Emitter S
  unfolding perform
  run e [] = e
  run e (c ∷ cs) = run (perform c e).0 cs
