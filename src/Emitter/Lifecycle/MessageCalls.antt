-- ===== src/Emitter/Lifecycle/MessageCalls.antt =====
-- emitter.go, `MessageWriter.Text`, `Annotation`, `Logprobs` and `Refusal`, against the checker of
-- streamtest/streamtest.go.
use openresponses.Prelude.{
  ℕ, suc, String, ◌≡◌, refl, sym, ap, ◌∙◌, true, false, Option, none, some, List, [], length, pos,
}
use openresponses.Item.{Content, ContentType, content_type, same_content_type_refl}
use openresponses.Event.{StreamEvent}
use openresponses.EventSink.{EventSink, Act, ◌>>◌}
use openresponses.Streamtest.Validator.{Validator, ItemState, PartState}
use openresponses.Streamtest.Step.{on_part_delta}
use openresponses.Streamtest.Check.{handle}
use openresponses.Accumulator.Panics.{has_indexes}
use openresponses.Streamtest.Checked.{CheckedSink, Succeeds, Succeeds-then}
use openresponses.Emitter.Parts.{
  MessageWriter, annotation_index, on_open, add_text, add_refusal, add_annotation, add_logprobs,
}
use openresponses.Emitter.Writer.{
  emit, text_part, refusal_part, edit_part, message_text, message_annotation, message_refusal,
  message_logprobs,
}
use openresponses.Emitter.Lifecycle.Sends.{emit_last}
use openresponses.Emitter.Lifecycle.Message.{PartSim, PartSim-some, handle-part_delta}
use openresponses.Emitter.Lifecycle.MessageParts.{
  Writing, Keeps, HasPart, text_part-Writing, refusal_part-Writing,
}

module _ {S : Type 0} {k : EventSink S} (c : CheckedSink k) (items : List ItemState)
    (count : ℕ) where
  module _ (f : Content → Content)
      (same_type : (p : Content) → content_type (f p) ≡ content_type p) where
    on_open-PartSim :
        (o : Option Content) (q : Option PartState) → PartSim o q → PartSim (on_open f o) q
    on_open-PartSim none q h = h
    on_open-PartSim (some p) none h = h
    on_open-PartSim (some p) (some q) h = (h.0 ∙ sym (same_type p), h.1)

    edit_part-Writing :
        (t : ContentType) (w w' : MessageWriter) (s : S)
        → (Keeps c items count) ((HasPart c items count) t) w (w', s)
        → (Keeps c items count)
            ((HasPart c items count) t)
            w
            (record w' { part = on_open f w'.part }, s)
    edit_part-Writing t w w' s ((v, n, st, at, h), same, (p, e, ty)) = (
      (
        v,
        n,
        st,
        at,
        record {
          running = h.running;
          calm = h.calm;
          strict = h.strict;
          items_kept = h.items_kept;
          count_kept = h.count_kept;
          opened = h.opened;
          index = h.index;
          id = h.id;
          typ = h.typ;
          item = h.item;
          count_parts = h.count_parts;
          part = on_open-PartSim w'.part st.part h.part;
          no_summary = h.no_summary;
          no_text = h.no_text;
        },
      ),
      record {
        same_id = same.same_id;
        same_index = same.same_index;
        same_closed = same.same_closed;
      },
      (f p, ap (on_open f) e, same_type p ∙ ty),
    )

    -- A change of the open part, and its event.
    delta-Writing :
        (t : ContentType) (m : Act (MessageWriter × S)) (ev : MessageWriter → StreamEvent)
        (w : MessageWriter) (s : S)
        → Succeeds ((Keeps c items count) ((HasPart c items count) t) w) (m (w, s))
        → ((w' : MessageWriter) → has_indexes (ev w') ≡ true)
        → ((w' : MessageWriter) (v : Validator) (n : ℕ)
            → handle v n (ev w')
              ≡ on_part_delta v w'.msg.id (pos w'.index) (pos (length w'.msg.content)) t)
        → Succeeds
            ((Keeps c items count) ((HasPart c items count) t) w)
            ((m >> edit_part k f >> emit k ev) (w, s))
    delta-Writing t m ev w s r idx hd =
        Succeeds-then ((Keeps c items count) ((HasPart c items count) t) w)
          ((Keeps c items count) ((HasPart c items count) t) w) m (edit_part k f >> emit k ev)
          (w, s) r
          (λ (w0, s') g0.
            let w' = record w0 { part = on_open f w0.part } in
            let ((v, n, st, at, h), same, (p, e, ty)) = edit_part-Writing t w w0 s' g0 in
            let (q, eq, tq) = PartSim-some st.part p (rw e at h.part) in
            emit_last c ((Keeps c items count) ((HasPart c items count) t) w) ev w' s' v n v at
              h.running h.calm (idx w')
              (hd w' v n
                ∙ handle-part_delta items count w' v n st h q eq t (tq ∙ ty)
                    (same_content_type_refl t))
              (λ s1 a. ((v, suc n, st, a, h), same, (p, e, ty))))

  pub add_text_type : (d : String) (p : Content) → content_type (add_text d p) ≡ content_type p
  unfolding content_type
  add_text_type d (Content.output_text x) = refl
  add_text_type d _ = refl

  pub add_refusal_type :
      (d : String) (p : Content) → content_type (add_refusal d p) ≡ content_type p
  unfolding content_type
  add_refusal_type d (Content.refusal x) = refl
  add_refusal_type d _ = refl

  pub add_annotation_type :
      (d : String) (p : Content) → content_type (add_annotation d p) ≡ content_type p
  unfolding content_type
  add_annotation_type d (Content.output_text x) = refl
  add_annotation_type d _ = refl

  pub add_logprobs_type :
      (ls : List String) (p : Content) → content_type (add_logprobs ls p) ≡ content_type p
  unfolding content_type
  add_logprobs_type d (Content.output_text x) = refl
  add_logprobs_type d _ = refl

  pub message_text-Writing :
      (d : String) (w : MessageWriter) (s : S)
      → (Writing c items count) (w, s)
      → w.closed ≡ false
      → Succeeds
          ((Keeps c items count) ((HasPart c items count) ContentType.output_text) w)
          (message_text k d (w, s))
  unfolding message_text handle
  message_text-Writing d w s wr e =
      delta-Writing (add_text d) (add_text_type d) ContentType.output_text (text_part k)
        (λ w'.
          StreamEvent.output_text_delta w'.msg.id (pos w'.index) (pos (length w'.msg.content)) d [])
        w s ((text_part-Writing c items count) w s wr e) (λ w'. refl) (λ w' v n. refl)

  pub message_annotation-Writing :
      (x : String) (w : MessageWriter) (s : S)
      → (Writing c items count) (w, s)
      → w.closed ≡ false
      → Succeeds
          ((Keeps c items count) ((HasPart c items count) ContentType.output_text) w)
          (message_annotation k x (w, s))
  unfolding message_annotation handle
  message_annotation-Writing x w s wr e =
      delta-Writing (add_annotation x) (add_annotation_type x) ContentType.output_text (text_part k)
        (λ w'.
          StreamEvent.output_text_annotation_added w'.msg.id (pos w'.index)
            (pos (length w'.msg.content)) (pos (annotation_index w'.part)) (some x))
        w s ((text_part-Writing c items count) w s wr e) (λ w'. refl) (λ w' v n. refl)

  pub message_refusal-Writing :
      (d : String) (w : MessageWriter) (s : S)
      → (Writing c items count) (w, s)
      → w.closed ≡ false
      → Succeeds
          ((Keeps c items count) ((HasPart c items count) ContentType.refusal) w)
          (message_refusal k d (w, s))
  unfolding message_refusal handle
  message_refusal-Writing d w s wr e =
      delta-Writing (add_refusal d) (add_refusal_type d) ContentType.refusal (refusal_part k)
        (λ w'. StreamEvent.refusal_delta w'.msg.id (pos w'.index) (pos (length w'.msg.content)) d) w
        s ((refusal_part-Writing c items count) w s wr e) (λ w'. refl) (λ w' v n. refl)

  pub message_logprobs-Writing :
      (ls : List String) (w : MessageWriter) (s : S)
      → (Writing c items count) (w, s)
      → w.closed ≡ false
      → Succeeds
          ((Keeps c items count) ((HasPart c items count) ContentType.output_text) w)
          (message_logprobs k ls (w, s))
  unfolding message_logprobs
  message_logprobs-Writing ls w s wr e =
      Succeeds-then ((Keeps c items count) ((HasPart c items count) ContentType.output_text) w)
        ((Keeps c items count) ((HasPart c items count) ContentType.output_text) w) (text_part k) _
        (w, s) ((text_part-Writing c items count) w s wr e)
        (λ (w', s') g.
          (refl, edit_part-Writing (add_logprobs ls) (add_logprobs_type ls) _ w w' s' g))
