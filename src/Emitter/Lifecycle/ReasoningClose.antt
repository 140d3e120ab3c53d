-- ===== src/Emitter/Lifecycle/ReasoningClose.antt =====
-- emitter.go, `ReasoningWriter.Close`, against the checker of streamtest/streamtest.go.
use openresponses.Prelude.{
  ℕ, suc, String, ◌≡◌, refl, sym, subst, ap, ◌∙◌, Bool, true, false, not, ◌&&◌, Option, none, some,
  List, [], ◌∷◌, ◌++◌, length, pos, arith,
}
use openresponses.Item.{Item, ItemType}
use openresponses.Event.{StreamEvent}
use openresponses.EventSink.{EventSink, ◌>>◌}
use openresponses.Streamtest.Validator.{Validator, ItemState}
use openresponses.Streamtest.Check.{handle}
use openresponses.Streamtest.Checked.{CheckedSink, Succeeds, Succeeds-then}
use openresponses.Emitter.Parts.{ReasoningWriter, reasoning_of, finish_reasoning}
use openresponses.Emitter.Writer.{
  emit, edit, end_summary, end_text, end_text_of, close_reasoning, close_reasoning_unless,
}
use openresponses.Emitter.Lifecycle.Sends.{emit_last}
use openresponses.Emitter.Lifecycle.Done.{ItemDone}
use openresponses.Emitter.Lifecycle.Reasoning.{
  ReasoningSim, handle-reasoning_done, handle-reasoning_item_done,
}
use openresponses.Emitter.Lifecycle.ReasoningCalls.{Thinking, KeepsThinking, end_summary-Thinking}

module _ {S : Type 0} {k : EventSink S} (c : CheckedSink k) (items : List ItemState)
    (count : ℕ) where
  -- The text that the checker has seen is done, if there is one.
  abbrev pub TextEnded : ReasoningWriter × S → Type 0
  TextEnded (w, s) =
      (v : Validator) × (n : ℕ) × (st : ItemState) × c.At v n s
      × ReasoningSim items count w v st
      × (st.text_open && not st.text_done ≡ false)

  pub end_text_cases :
      (o : Option String) (b : Bool) (w : ReasoningWriter) (s : S)
      → w.text_content ≡ o
      → w.text_done ≡ b
      → (Thinking c items count) (w, s)
      → Succeeds
          (λ x.
            TextEnded x
            × (x.0.summary ≡ w.summary)
            × (x.0.closed ≡ w.closed)
            × (x.0.item.id ≡ w.item.id))
          (end_text_of k o b (w, s))
  unfolding handle
  end_text_cases none b w s e f (v, n, st, at, h) =
      (refl, ((v, n, st, at, h, ground (arith, h.no_text e)), refl, refl, refl))
  end_text_cases (some t) true w s e f (v, n, st, at, h) =
      (refl, ((v, n, st, at, h, ground (arith, h.text_done)), refl, refl, refl))
  end_text_cases (some t) false w s e f (v, n, st, at, h) =
      emit_last c
        (λ x.
          TextEnded x
          × (x.0.summary ≡ w.summary)
          × (x.0.closed ≡ w.closed)
          × (x.0.item.id ≡ w.item.id))
        (λ w'.
          StreamEvent.reasoning_done w'.item.id (pos w'.index) (pos (length w'.item.content)) t)
        (record w { text_done = true }) s v n _ at h.running h.calm refl
        (handle-reasoning_done items count w v n st h)
        (λ s' a. (
          (_, suc n, record st { text_done = true }, a, ground (arith, h.summary), ground arith),
          refl,
          refl,
          refl,
        ))

  abbrev pub Thought : ReasoningWriter × S → Type 0
  Thought (w, s) =
      (v : Validator) × (n : ℕ) × (st : ItemState) × c.At v n s
      × ItemDone items count w.item.id ItemType.reasoning v st
      × (w.closed ≡ true)
      × (w.summary ≡ none)

  pub finished :
      (w : ReasoningWriter) (s : S)
      → TextEnded (w, s)
      → w.summary ≡ none
      → w.closed ≡ true
      → Succeeds Thought (
          (edit k finish_reasoning
              >> emit k λ (w' : ReasoningWriter).
                StreamEvent.output_item_done
                  (pos w'.index)
                  (some (Item.reasoning (reasoning_of w'))))
            (w, s))
  unfolding handle
  finished w s (v, n, st, at, h, te) e cl =
      let w1 = finish_reasoning w in
      let h1 : ReasoningSim items count w1 v st = ground (arith, h.summary) in
      emit_last c Thought
        (λ w'.
          StreamEvent.output_item_done (pos w'.index) (some (Item.reasoning (reasoning_of w'))))
        w1 s v n _ at h.running h.calm refl
        (handle-reasoning_item_done items count w1 v n st h1 e te)
        (λ s' a. (
          _,
          suc n,
          record st { item = Item.reasoning (reasoning_of w1); done = true },
          a,
          record {
            running = h.running;
            calm = h.calm;
            strict = h.strict;
            items_done =
                ap
                  (λ l.
                    l ++ record st { item = Item.reasoning (reasoning_of w1); done = true } ∷ [])
                  h.items_kept;
            count_kept = h.count_kept;
            none_open = refl;
            id = h.id;
            typ = h.typ;
          },
          cl,
          e,
        ))

  pub close_open_reasoning :
      (w : ReasoningWriter) (s : S)
      → (Thinking c items count) (w, s)
      → Succeeds Thought (close_reasoning_unless k false (w, s))
  unfolding end_text end_summary
  close_open_reasoning w s (v, n, st, at, h) =
      let w1 = record w { closed = true } in
      let h1 : ReasoningSim items count w1 v st = ground (arith, h.summary) in
      Succeeds-then
        ((KeepsThinking c items count)
          (λ w'. (w'.summary ≡ none) × (w'.text_content ≡ w1.text_content)) w1)
        Thought (end_summary k) _ (w1, s)
        ((end_summary-Thinking c items count) w1 s (v, n, st, at, h1))
        (λ (w2, s2) (wr2, same, (e, _)).
          Succeeds-then
            (λ x.
              TextEnded x
              × (x.0.summary ≡ w2.summary)
              × (x.0.closed ≡ w2.closed)
              × (x.0.item.id ≡ w2.item.id))
            Thought (end_text k) _ (w2, s2)
            (end_text_cases w2.text_content w2.text_done w2 s2 refl refl wr2)
            (λ (w3, s3) (te, e3, c3, _). finished w3 s3 te (e3 ∙ e) (c3 ∙ same.same_closed)))

  pub close_reasoning-Thinking :
      (w : ReasoningWriter) (s : S)
      → (Thinking c items count) (w, s)
      → w.closed ≡ false
      → Succeeds Thought (close_reasoning k (w, s))
  unfolding close_reasoning
  close_reasoning-Thinking w s wr e =
      subst (λ b. Succeeds Thought (close_reasoning_unless k b (w, s))) (sym e)
        (close_open_reasoning w s wr)
