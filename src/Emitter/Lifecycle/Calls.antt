-- ===== src/Emitter/Lifecycle/Calls.antt =====
-- emitter.go, the calls of the open writer, against the checker of streamtest/streamtest.go.
use openresponses.Prelude.{
  ℕ, suc, String, ◌≡◌, refl, sym, subst, ap, ◌∙◌, ◌⊎◌, Bool, true, false, Option, none, some, List,
  length, inl, inr,
}
use openresponses.Item.{Items, item_type, item_identity}
use openresponses.EventSink.{EventSink, Act, writer_closed}
use openresponses.Streamtest.Validator.{Validator, ItemState}
use openresponses.Streamtest.Checked.{CheckedSink}
use openresponses.Emitter.Parts.{MessageWriter, ReasoningWriter}
use openresponses.Emitter.Writer.{
  end_summary, call_arguments, close_message, close_call, close_reasoning,
}
use openresponses.Emitter.State.{Writer, Emitter}
use openresponses.Emitter.Calls.{as_message, as_call, as_reasoning, close_as, end_summary_as}
use openresponses.Emitter.Lifecycle.Invariant.{WriterSim, Phase, Inv, Ready, Ready-Inv}
use openresponses.Emitter.Lifecycle.MessageParts.{Writing}
use openresponses.Emitter.Lifecycle.MessageClose.{close_message-Writing}
use openresponses.Emitter.Lifecycle.CallCalls.{call_arguments-Calling, close_call-Calling}
use openresponses.Emitter.Lifecycle.ReasoningCalls.{Thinking, end_summary-Thinking}
use openresponses.Emitter.Lifecycle.ReasoningClose.{close_reasoning-Thinking}
use openresponses.Emitter.Lifecycle.Refused
use openresponses.Emitter.Lifecycle.Start.{done-Idle}

module _ {S : Type 0} {k : EventSink S} (c : CheckedSink k) where
  -- A method of an open message keeps the checker in step, and leaves the message open.
  abbrev pub Live : Act (MessageWriter × S) → Type 0
  Live m =
      (items : List ItemState) (n : ℕ) (w : MessageWriter) (s : S)
      → Writing c items n (w, s)
      → w.closed ≡ false
      → Writing c items n (m (w, s)).0 × ((m (w, s)).0.0.closed ≡ false)

  -- On a closed message it changes nothing.
  abbrev pub Dead : Act (MessageWriter × S) → Type 0
  Dead m = (w : MessageWriter) (s : S) → w.closed ≡ true → m (w, s) ≡ ((w, s), some writer_closed)

  pub message-WriterSim :
      (m : Act (MessageWriter × S))
      → Live m
      → Dead m
      → (o : Option Writer) (e : Emitter S) (v : Validator) (n : ℕ) → c.At v n e.sink
      → WriterSim e.resp.output o v
      → e.open_writer ≡ o
      → e.started ≡ true
      → e.terminal ≡ false
      → Ready c (as_message k m o e).0
  message-WriterSim m live dead none e v n at h o s t =
      (v, n, at, subst (λ x. WriterSim e.resp.output x v) (sym o) h, s, t)
  message-WriterSim m live dead (some (Writer.call w)) e v n at h o s t =
      (v, n, at, subst (λ x. WriterSim e.resp.output x v) (sym o) h, s, t)
  message-WriterSim m live dead (some (Writer.reasoning w)) e v n at h o s t =
      (v, n, at, subst (λ x. WriterSim e.resp.output x v) (sym o) h, s, t)
  message-WriterSim m live dead (some (Writer.message w)) e v n at (inl (items, st, mt, (h, cl))) o
        s t =
      let ((v', n', st', at', h'), cl') =
        live items (suc (length e.resp.output)) w e.sink (v, n, st, at, h) cl in
      (v', n', at', inl (items, st', mt, (h', cl')), s, t)
  message-WriterSim m live dead (some (Writer.message w)) e v n at (inr (h, cl, ns)) o s t =
      subst (λ r. Ready c (record e { sink = r.0.1; open_writer = some (Writer.message r.0.0) }))
        (sym (dead w e.sink cl)) (v, n, at, inr (h, cl, ns), s, t)

  -- The same for a function call.
  pub call-WriterSim :
      (d : String) (o : Option Writer) (e : Emitter S) (v : Validator) (n : ℕ)
      → c.At v n e.sink
      → WriterSim e.resp.output o v
      → e.open_writer ≡ o
      → e.started ≡ true
      → e.terminal ≡ false
      → Ready c (as_call k (call_arguments k d) o e).0
  call-WriterSim d none e v n at h o s t =
      (v, n, at, subst (λ x. WriterSim e.resp.output x v) (sym o) h, s, t)
  call-WriterSim d (some (Writer.message w)) e v n at h o s t =
      (v, n, at, subst (λ x. WriterSim e.resp.output x v) (sym o) h, s, t)
  call-WriterSim d (some (Writer.reasoning w)) e v n at h o s t =
      (v, n, at, subst (λ x. WriterSim e.resp.output x v) (sym o) h, s, t)
  call-WriterSim d (some (Writer.call w)) e v n at (inl (items, st, mt, (h, cl))) o s t =
      let ((v', n', st', at', h'), cl', _, _) =
        (call_arguments-Calling c items (suc (length e.resp.output)) d w e.sink (v, n, st, at, h)
          cl).1 in
      (v', n', at', inl (items, st', mt, (h', cl')), s, t)
  call-WriterSim d (some (Writer.call w)) e v n at (inr (h, cl, ns)) o s t =
      subst (λ r. Ready c (record e { sink = r.0.1; open_writer = some (Writer.call r.0.0) }))
        (sym (Refused.call_arguments_closed k e.sink w cl d)) (v, n, at, inr (h, cl, ns), s, t)

  -- The same for a reasoning item, where the text stays unfinished until `Close`. The method may
  -- do nothing on a closed item, with or without an error.
  abbrev pub LiveReasoning : Act (ReasoningWriter × S) → Type 0
  LiveReasoning m =
      (items : List ItemState) (n : ℕ) (w : ReasoningWriter) (s : S)
      → Thinking c items n (w, s)
      → w.closed ≡ false
      → w.text_done ≡ false
      → Thinking c items n (m (w, s)).0
        × ((m (w, s)).0.0.closed ≡ false)
        × ((m (w, s)).0.0.text_done ≡ false)

  abbrev pub DeadReasoning : Act (ReasoningWriter × S) → Type 0
  DeadReasoning m =
      (w : ReasoningWriter) (s : S) → w.closed ≡ true → w.summary ≡ none → (m (w, s)).0 ≡ (w, s)

  reasoning-WriterSim :
      (m : Act (ReasoningWriter × S))
      → LiveReasoning m
      → DeadReasoning m
      → (w : ReasoningWriter) (e : Emitter S) (v : Validator) (n : ℕ) → c.At v n e.sink
      → WriterSim e.resp.output (some (Writer.reasoning w)) v
      → e.started ≡ true
      → e.terminal ≡ false
      → Ready c (as_reasoning k m (some (Writer.reasoning w)) e).0
  reasoning-WriterSim m live dead w e v n at (inl (items, st, mt, (h, cl, td))) s t =
      let ((v', n', st', at', h'), cl', td') =
        live items (suc (length e.resp.output)) w e.sink (v, n, st, at, h) cl td in
      (v', n', at', inl (items, st', mt, (h', cl', td')), s, t)
  reasoning-WriterSim m live dead w e v n at (inr (h, cl, ns)) s t =
      subst (λ r. Ready c (record e { sink = r.1; open_writer = some (Writer.reasoning r.0) }))
        (sym (dead w e.sink cl ns)) (v, n, at, inr (h, cl, ns), s, t)

  abbrev pub AnyWriter : (Option Writer → Act (Emitter S)) → Type 0
  AnyWriter f =
      (o : Option Writer) (e : Emitter S) (v : Validator) (n : ℕ)
      → c.At v n e.sink
      → WriterSim e.resp.output o v
      → e.open_writer ≡ o
      → e.started ≡ true
      → e.terminal ≡ false
      → Ready c (f o e).0

  pub as_reasoning-AnyWriter :
      (m : Act (ReasoningWriter × S))
      → LiveReasoning m
      → DeadReasoning m
      → AnyWriter (as_reasoning k m)
  as_reasoning-AnyWriter m live dead (some (Writer.reasoning w)) e v n at h o s t =
      reasoning-WriterSim m live dead w e v n at h s t
  as_reasoning-AnyWriter m live dead none e v n at h o s t =
      (v, n, at, subst (λ x. WriterSim e.resp.output x v) (sym o) h, s, t)
  as_reasoning-AnyWriter m live dead (some (Writer.message w)) e v n at h o s t =
      (v, n, at, subst (λ x. WriterSim e.resp.output x v) (sym o) h, s, t)
  as_reasoning-AnyWriter m live dead (some (Writer.call w)) e v n at h o s t =
      (v, n, at, subst (λ x. WriterSim e.resp.output x v) (sym o) h, s, t)

  pub end_summary-AnyWriter : AnyWriter (end_summary_as k)
  unfolding end_summary
  end_summary-AnyWriter (some (Writer.reasoning w)) e v n at h o s t =
      reasoning-WriterSim (end_summary k) live dead w e v n at h s t
    where
      live : LiveReasoning (end_summary k)
      live items n w s wr cl td =
          let (wr', same, _) = (end_summary-Thinking c items n w s wr).1 in
          (wr', same.same_closed ∙ cl, same.same_done ∙ td)

      dead : DeadReasoning (end_summary k)
      dead w s cl ns = ap (λ r. r.0) (Refused.end_summary-none k s w ns)
  end_summary-AnyWriter none e v n at h o s t =
      (v, n, at, subst (λ x. WriterSim e.resp.output x v) (sym o) h, s, t)
  end_summary-AnyWriter (some (Writer.message w)) e v n at h o s t =
      (v, n, at, subst (λ x. WriterSim e.resp.output x v) (sym o) h, s, t)
  end_summary-AnyWriter (some (Writer.call w)) e v n at h o s t =
      (v, n, at, subst (λ x. WriterSim e.resp.output x v) (sym o) h, s, t)

  -- `Close` leaves the closed writer in place.
  pub close-AnyWriter : AnyWriter (close_as k)
  unfolding close_message close_call close_reasoning item_type item_identity
  close-AnyWriter none e v n at h o s t =
      (v, n, at, subst (λ x. WriterSim e.resp.output x v) (sym o) h, s, t)
  close-AnyWriter (some (Writer.message w)) e v n at (inl (items, st, m, (h, cl))) o s t =
      let (v', n', st', at', d, cl') =
        (close_message-Writing c items (suc (length e.resp.output)) w e.sink (v, n, st, at, h)
          cl).1 in
      (v', n', at', inr (done-Idle c e.resp.output items _ v' st' m d, cl', refl), s, t)
  close-AnyWriter (some (Writer.call w)) e v n at (inl (items, st, m, (h, cl))) o s t =
      let (v', n', st', at', d, cl') =
        (close_call-Calling c items (suc (length e.resp.output)) w e.sink (v, n, st, at, h) cl).1 in
      (v', n', at', inr (done-Idle c e.resp.output items _ v' st' m d, cl', refl), s, t)
  close-AnyWriter (some (Writer.reasoning w)) e v n at (inl (items, st, m, (h, cl, td))) o s t =
      let (v', n', st', at', d, cl', ns') =
        (close_reasoning-Thinking c items (suc (length e.resp.output)) w e.sink (v, n, st, at, h)
          cl).1 in
      (v', n', at', inr (done-Idle c e.resp.output items _ v' st' m d, cl', ns'), s, t)
  close-AnyWriter (some (Writer.message w)) e v n at (inr (h, cl, ns)) o s t =
      subst (λ r. Ready c (record e { sink = r.0.1; open_writer = some (Writer.message r.0.0) }))
        (sym (Refused.close_message_closed k e.sink w cl)) (v, n, at, inr (h, cl, ns), s, t)
  close-AnyWriter (some (Writer.call w)) e v n at (inr (h, cl, ns)) o s t =
      subst (λ r. Ready c (record e { sink = r.0.1; open_writer = some (Writer.call r.0.0) }))
        (sym (Refused.close_call_closed k e.sink w cl)) (v, n, at, inr (h, cl, ns), s, t)
  close-AnyWriter (some (Writer.reasoning w)) e v n at (inr (h, cl, ns)) o s t =
      subst (λ r. Ready c (record e { sink = r.0.1; open_writer = some (Writer.reasoning r.0.0) }))
        (sym (Refused.close_reasoning_closed k e.sink w cl)) (v, n, at, inr (h, cl, ns), s, t)

  Phase-cases :
      (started terminal : Bool) (o : Option Writer) (out : Items) (v : Validator) (n : ℕ)
      → Phase started terminal o out v n
      → (o ≡ none) ⊎ (WriterSim out o v × (started ≡ true) × (terminal ≡ false))
  Phase-cases started true o out v n h = inl h.1
  Phase-cases true false o out v n h = inr (h, refl, refl)
  Phase-cases false false o out v n h = inl h.1

  -- Without an open writer these calls change nothing.
  pub on_writer-Inv :
      (f : Option Writer → Act (Emitter S))
      → AnyWriter f
      → ((e : Emitter S) → (f none e).0 ≡ e)
      → (e : Emitter S) → Inv c e
      → Inv c (f e.open_writer e).0
  on_writer-Inv f any idle e (v, n, at, h) =
      elim (Phase-cases e.started e.terminal e.open_writer e.resp.output v n h) [
        | inl none_open ↦
            subst (λ o. Inv c (f o e).0) (sym none_open)
              (subst (Inv c) (sym (idle e)) (v, n, at, h))
        | inr (w, s, t) ↦ Ready-Inv c (f e.open_writer e).0 (any e.open_writer e v n at w refl s t)
      ]
