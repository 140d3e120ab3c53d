-- ===== src/Emitter/First.antt =====
-- emitter.go on the recording sink of streamtest/streamtest.go: the first event that is sent.
use openresponses.Prelude.{
  ℕ, suc, String, ◌≡◌, refl, sym, subst, ap, Bool, true, false, Option, none, some, List, [], ◌∷◌,
  ◌++◌, ◌⊎◌, inl, inr, length,
}
use openresponses.Response.{Response}
use openresponses.Event.{StreamEvent}
use openresponses.EventSink.{Act, ◌>>◌, fail_if, terminal_event_sent}
use openresponses.Accumulator.State.{Accumulator}
use openresponses.Accumulator.Add.{add}
use openresponses.Accumulator.Panics.{add-Total, has_indexes}
use openresponses.Streamtest.Check.{is_created}
use openresponses.Streamtest.Sink.{
  Sink, new_sink, sink, send, send-taken, send_unless, record_decoded, fold_decoded,
}
use openresponses.Emitter.Parts.{set_encrypted, change_extra}
use openresponses.Emitter.Writer.{
  message_text, message_annotation, message_logprobs, message_refusal, close_message,
  call_arguments, close_call, reasoning_summary, end_summary, reasoning_text, close_reasoning,
}
use openresponses.Emitter.State.{
  Writer, Emitter, new_emitter, current, mark_incomplete, new_message, new_call, new_reasoning,
}
use openresponses.Emitter.Calls.{
  Call, perform, run, emits, start, start_unless, close_open, before_item, before_terminal,
  announce, open_writer, add_whole, whole_item, complete, incomplete, close_as, end_summary_as,
  as_message, as_call, as_reasoning, amend_as,
}
use openresponses.Emitter.Frame.Calls.{
  Stays, begin-Stays, close_open-Stays, announce-Stays, put_whole-Stays, perform-Stays,
}

abbrev pub starts : List (ℕ × StreamEvent) → Bool
starts [] = false
starts ((_, ev) ∷ es) = is_created ev

starts-append : (xs ys : List (ℕ × StreamEvent)) → starts xs ≡ true → starts (xs ++ ys) ≡ true
starts-append [] ys h = cc
starts-append (x ∷ xs) ys h = h

abbrev pub Started : Sink → Type 0
Started s = starts s.events ≡ true

module _ (wire : StreamEvent → Option StreamEvent) where
  send-Started : (s : Sink) (ev : StreamEvent) → Started s → Started (send wire s ev).0
  unfolding send
  send-Started s ev h = guard s.terminal
    where
      fold :
          (e : StreamEvent) (a : Option Accumulator)
          → Started
              (fold_decoded
                (record s { seq = suc s.seq; events = s.events ++ (s.seq, e) ∷ [] })
                e
                a).0
      fold e none = starts-append s.events _ h
      fold e (some a) = starts-append s.events _ h

      decoded :
          (o : Option StreamEvent)
          → Started (record_decoded (record s { seq = suc s.seq }) s.seq o).0
      decoded none = h
      decoded (some e) = fold e (add s.acc e)

      guard : (b : Bool) → Started (send_unless wire b s ev).0
      guard true = h
      guard false = decoded (wire ev)

  -- Nothing was called for yet: no event, no writer.
  pub record Waiting (e : Emitter Sink) : Type 0 where
    pub waiting : e.started ≡ false
    pub no_events : e.sink.events ≡ []
    pub no_writer : e.open_writer ≡ none
    pub accepting : e.sink.terminal ≡ false

  abbrev pub First : Emitter Sink → Type 0
  First e = Waiting e ⊎ Started e.sink

  first_send :
      (s : Sink) (ev : StreamEvent)
      → s.events ≡ []
      → s.terminal ≡ false
      → wire ev ≡ some ev
      → is_created ev ≡ true
      → Started (send wire s ev).0
  first_send s ev none_yet accepting kept c =
      let (a, added) = add-Total s.acc ev (created_has_indexes ev c) in
      subst (λ r. Started r.0) (sym (send-taken wire s ev a accepting kept added))
        (subst (λ es. starts (es ++ (s.seq, ev) ∷ []) ≡ true) (sym none_yet) c)
    where
      created_has_indexes : (e : StreamEvent) → is_created e ≡ true → has_indexes e ≡ true
      created_has_indexes (StreamEvent.response_created r) h = refl
      created_has_indexes _ h = cc

  module _ (kept : (ev : StreamEvent) → wire ev ≡ some ev) where
    start-First : (e : Emitter Sink) → Waiting e → Started (start (sink wire) e).0.sink
    unfolding start
    start-First e w =
        subst (λ b. Started (start_unless (sink wire) b e).0.sink) (sym w.waiting)
          (begin-Stays (sink wire) Started send-Started
            (emits (sink wire) (λ e'. StreamEvent.response_created (some (current e'))))
            (emits (sink wire) (λ e'. StreamEvent.response_in_progress (some (current e'))))
            (record e { started = true })
            (first_send e.sink _ w.no_events w.accepting (kept _) refl)
            (λ y q. send-Started y.sink _ q))

    prepared-First :
        (b : Bool) (l : Act (Emitter Sink)) (e : Emitter Sink)
        → Waiting e
        → Stays (sink wire) Started send-Started l
        → First
            (((fail_if b terminal_event_sent >> start (sink wire) >> close_open (sink wire)) >> l)
              e).0
    prepared-First true l e w h = inl w
    prepared-First false l e w h = inr (
        begin-Stays (sink wire) Started send-Started (start (sink wire) >> close_open (sink wire)) l
          e
          (begin-Stays (sink wire) Started send-Started (start (sink wire)) (close_open (sink wire))
            e (start-First e w) (close_open-Stays (sink wire) Started send-Started))
          h)

    open_writer-First :
        (new : ℕ → Writer) (e : Emitter Sink) → Waiting e → First (open_writer (sink wire) new e).0
    unfolding open_writer before_item
    open_writer-First new e w =
        prepared-First e.terminal (announce (sink wire) new) e w
          (announce-Stays (sink wire) Started send-Started new)

    -- A call of a writer finds none; every other call sends `response.created` first, or nothing.
    perform-Waiting :
        (call : Call) (e : Emitter Sink) → Waiting e → First (perform (sink wire) call e).0
    unfolding perform whole_item complete incomplete before_item before_terminal close_message
        close_call close_reasoning end_summary
    perform-Waiting Call.starts e w = inr (start-First e w)
    perform-Waiting Call.closes e w =
        subst (λ o. First (close_as (sink wire) o e).0) (sym w.no_writer) (inl w)
    perform-Waiting Call.ends_summary e w =
        subst (λ o. First (end_summary_as (sink wire) o e).0) (sym w.no_writer) (inl w)
    perform-Waiting (Call.message id phase) e w = open_writer-First (new_message id phase) e w
    perform-Waiting (Call.function_call id fresh call_id name) e w =
        open_writer-First (new_call id fresh call_id name) e w
    perform-Waiting (Call.reasoning id extra) e w = open_writer-First (new_reasoning id extra) e w
    perform-Waiting (Call.whole i) e w =
        prepared-First e.terminal (add_whole (sink wire) i) e w (λ y q.
          put_whole-Stays (sink wire) Started send-Started i y.resp.output (length y.resp.output) y
            q)
    perform-Waiting (Call.text d) e w =
        subst (λ o. First (as_message (sink wire) (message_text (sink wire) d) o e).0)
          (sym w.no_writer) (inl w)
    perform-Waiting (Call.annotation d) e w =
        subst (λ o. First (as_message (sink wire) (message_annotation (sink wire) d) o e).0)
          (sym w.no_writer) (inl w)
    perform-Waiting (Call.refusal d) e w =
        subst (λ o. First (as_message (sink wire) (message_refusal (sink wire) d) o e).0)
          (sym w.no_writer) (inl w)
    perform-Waiting (Call.logprobs d) e w =
        subst (λ o. First (as_message (sink wire) (message_logprobs (sink wire) d) o e).0)
          (sym w.no_writer) (inl w)
    perform-Waiting (Call.arguments d) e w =
        subst (λ o. First (as_call (sink wire) (call_arguments (sink wire) d) o e).0)
          (sym w.no_writer) (inl w)
    perform-Waiting (Call.summary d) e w =
        subst (λ o. First (as_reasoning (sink wire) (reasoning_summary (sink wire) d) o e).0)
          (sym w.no_writer) (inl w)
    perform-Waiting (Call.reasoning_delta d) e w =
        subst (λ o. First (as_reasoning (sink wire) (reasoning_text (sink wire) d) o e).0)
          (sym w.no_writer) (inl w)
    perform-Waiting (Call.encrypted_content s) e w =
        subst (λ o. First (amend_as (sink wire) (set_encrypted s) o e).0) (sym w.no_writer) (inl w)
    perform-Waiting (Call.changes_extra f) e w =
        subst (λ o. First (amend_as (sink wire) (change_extra f) o e).0) (sym w.no_writer) (inl w)
    perform-Waiting (Call.completes now) e w =
        prepared-First e.terminal _ e w (λ y q. send-Started y.sink _ q)
    perform-Waiting (Call.incompletes now reason) e w =
        prepared-First e.terminal _ (record e { open_writer = mark_incomplete e.open_writer })
          (record {
            waiting = w.waiting;
            no_events = w.no_events;
            accepting = w.accepting;
            no_writer = ap mark_incomplete w.no_writer;
          })
          (λ y q. send-Started y.sink _ q)

    pub perform-First :
        (call : Call) (e : Emitter Sink) → First e → First (perform (sink wire) call e).0
    perform-First call e (inl w) = perform-Waiting call e w
    perform-First call e (inr s) = inr (perform-Stays (sink wire) Started send-Started call e s)

    pub run-First :
        (calls : List Call) (e : Emitter Sink) → First e → First (run (sink wire) e calls)
    unfolding run
    run-First [] e h = h
    run-First (call ∷ calls) e h = run-First calls _ (perform-First call e h)

    pub new_emitter-First : (fresh : String) (r : Response) → First (new_emitter new_sink fresh r)
    unfolding new_emitter
    new_emitter-First fresh r =
        inl (record { waiting = refl; no_events = refl; no_writer = refl; accepting = refl })
