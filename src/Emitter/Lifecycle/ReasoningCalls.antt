-- ===== src/Emitter/Lifecycle/ReasoningCalls.antt =====
-- emitter.go, `ReasoningWriter.Summary`, `EndSummary` and `Text`, against the checker of
-- streamtest/streamtest.go.
use openresponses.Prelude.{
  ℕ, suc, String, ◌≡◌, refl, ap, true, false, Option, none, some, List, length, pos, arith,
  str_append,
}
use openresponses.Item.{Content, content_type}
use openresponses.Event.{StreamEvent, is_some}
use openresponses.EventSink.{EventSink, writer_closed, reasoning_finished}
use openresponses.Streamtest.Validator.{Validator, ItemState, new_part}
use openresponses.Streamtest.Step.{with_open}
use openresponses.Streamtest.Check.{handle}
use openresponses.Streamtest.Checked.{CheckedSink, Succeeds, Succeeds-then, Succeeds-fail_if}
use openresponses.Emitter.Parts.{ReasoningWriter, append_delta, or_empty, settle_summary}
use openresponses.Emitter.Writer.{
  open_summary_unless, reasoning_summary, end_summary, end_summary_of, reasoning_text,
}
use openresponses.Emitter.Lifecycle.Sends.{emit_last, emit_then}
use openresponses.Emitter.Lifecycle.Reasoning.{
  ReasoningSim, SummarySim-some, handle-summary_added, handle-summary_delta,
  handle-summary_text_done, handle-summary_done, ReasoningSim-summary_done, handle-reasoning_delta,
}

-- What the methods leave alone.
pub record SameReasoning (w w' : ReasoningWriter) : Type 0 where
  pub same_id : w'.item.id ≡ w.item.id
  pub same_index : w'.index ≡ w.index
  pub same_closed : w'.closed ≡ w.closed
  pub same_done : w'.text_done ≡ w.text_done

module _ {S : Type 0} {k : EventSink S} (c : CheckedSink k) (items : List ItemState)
    (count : ℕ) where
  abbrev pub Thinking : ReasoningWriter × S → Type 0
  Thinking (w, s) =
      (v : Validator) × (n : ℕ) × (st : ItemState) × c.At v n s × ReasoningSim items count w v st

  abbrev pub KeepsThinking :
      (ReasoningWriter → Type 0) → ReasoningWriter → ReasoningWriter × S → Type 0
  KeepsThinking P w x = Thinking x × SameReasoning w x.0 × P x.0

  abbrev pub HasSummary : ReasoningWriter → Type 0
  HasSummary w = (t : String) × (w.summary ≡ some t)

  pub open_summary-Thinking :
      (o : Option String) (w : ReasoningWriter) (s : S)
      → w.summary ≡ o
      → Thinking (w, s)
      → Succeeds (KeepsThinking HasSummary w) (open_summary_unless k (is_some o) (w, s))
  unfolding handle
  open_summary-Thinking (some t) w s e wr = (refl, (wr, ground arith, (t, e)))
  open_summary-Thinking none w s e (v, n, st, at, h) =
      emit_last c (KeepsThinking HasSummary w)
        (λ w'.
          StreamEvent.reasoning_summary_part_added w'.item.id (pos w'.index)
            (pos (length w'.item.summary)) (some (Content.summary_text "")))
        (record w { summary = some "" }) s v n _ at h.running h.calm refl
        (handle-summary_added items count w v n st h e (Content.summary_text ""))
        (λ s' a. (
          (
            _,
            suc n,
            record st { summary = some (new_part (content_type (Content.summary_text ""))) },
            a,
            ground arith,
          ),
          ground arith,
          ("", refl),
        ))

  pub reasoning_summary-Thinking :
      (d : String) (w : ReasoningWriter) (s : S)
      → Thinking (w, s)
      → w.closed ≡ false
      → Succeeds (KeepsThinking HasSummary w) (reasoning_summary k d (w, s))
  unfolding reasoning_summary handle
  reasoning_summary-Thinking d w s wr e =
      Succeeds-fail_if (KeepsThinking HasSummary w) w.closed writer_closed _ (w, s) e
        (Succeeds-then (KeepsThinking HasSummary w) (KeepsThinking HasSummary w)
          (open_summary_unless k (is_some w.summary)) _ (w, s)
          (open_summary-Thinking w.summary w s refl wr)
          (λ (w1, s1) ((v, n, st, at, h), same, (t, e1)).
            let (q, eq) = SummarySim-some st.summary t (rw e1 at h.summary) in
            let w2 = record w1 { summary = append_delta w1.summary d } in
            let h2 : ReasoningSim items count w2 v st = ground (arith, h.summary) in
            emit_last c (KeepsThinking HasSummary w)
              (λ w'.
                StreamEvent.reasoning_summary_text_delta w'.item.id (pos w'.index)
                  (pos (length w'.item.summary)) d)
              w2 s1 v n v at h.running h.calm refl
              (handle-summary_delta items count w2 v n st h2 q eq)
              (λ s' a. (
                (v, suc n, st, a, h2),
                ground arith,
                (str_append t d, ap (λ o. append_delta o d) e1),
              ))))

  pub end_summary_cases :
      (o : Option String) (w : ReasoningWriter) (s : S)
      → w.summary ≡ o
      → Thinking (w, s)
      → Succeeds
          (KeepsThinking (λ w'. (w'.summary ≡ none) × (w'.text_content ≡ w.text_content)) w)
          (end_summary_of k o (length w.item.summary) (w, s))
  unfolding handle
  end_summary_cases none w s e wr = (refl, (wr, ground arith, (e, refl)))
  end_summary_cases (some t) w s e (v, n, st, at, h) =
      let (q, eq) = SummarySim-some st.summary t (rw e at h.summary) in
      let Q = KeepsThinking (λ w'. (w'.summary ≡ none) × (w'.text_content ≡ w.text_content)) w in
      let q1 = record q { kind_done = true } in
      let st1 = record st { summary = some q1 } in
      let h1 : ReasoningSim items count w (with_open v st1) st1 = ground (arith, h.summary) in
      emit_then c Q
        (λ w'.
          StreamEvent.reasoning_summary_text_done w'.item.id (pos w'.index)
            (pos (length w.item.summary)) t)
        (settle_summary t w) s v n _ at h.running h.calm refl
        (handle-summary_text_done items count w v n st h q eq) _
        (λ s' a.
          emit_last c Q
            (λ w'.
              StreamEvent.reasoning_summary_part_done w'.item.id (pos w'.index)
                (pos (length w.item.summary)) (some (Content.summary_text t)))
            (settle_summary t w) s' _ (suc n) _ a h.running h.calm refl
            (handle-summary_done items count w _ (suc n) st1 h1 q1 refl refl)
            (λ s2 b. (
              (
                _,
                suc (suc n),
                _,
                b,
                ReasoningSim-summary_done items count w _ (suc n) st1 h1 q1 refl t,
              ),
              ground arith,
              (refl, refl),
            )))

  pub end_summary-Thinking :
      (w : ReasoningWriter) (s : S)
      → Thinking (w, s)
      → Succeeds
          (KeepsThinking (λ w'. (w'.summary ≡ none) × (w'.text_content ≡ w.text_content)) w)
          (end_summary k (w, s))
  unfolding end_summary
  end_summary-Thinking w s wr = end_summary_cases w.summary w s refl wr

  pub reasoning_text-Thinking :
      (d : String) (w : ReasoningWriter) (s : S)
      → Thinking (w, s)
      → w.closed ≡ false
      → w.text_done ≡ false
      → Succeeds (KeepsThinking (λ _. Unit {0}) w) (reasoning_text k d (w, s))
  unfolding reasoning_text handle
  reasoning_text-Thinking d w s (v, n, st, at, h) e td =
      Succeeds-fail_if Q w.closed writer_closed _ (w, s) e
        (Succeeds-fail_if Q w.text_done reasoning_finished _ (w, s) td
          (emit_last c Q
            (λ w'.
              StreamEvent.reasoning_delta w'.item.id (pos w'.index) (pos (length w'.item.content))
                d)
            (record w { text_content = append_delta (or_empty w.text_content) d }) s v n _ at
            h.running h.calm refl (handle-reasoning_delta items count w v n st h td)
            (λ s' a. (
              (_, suc n, record st { text_open = true }, a, ground (arith, h.summary)),
              ground arith,
              tt,
            ))))
    where
      Q : ReasoningWriter × S → Type 0
      Q = KeepsThinking (λ _. Unit {0}) w
