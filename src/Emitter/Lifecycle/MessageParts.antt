-- ===== src/Emitter/Lifecycle/MessageParts.antt =====
-- emitter.go, `textPart`, `openPart`, `closePart` and the part of `Refusal`, against the checker of
-- streamtest/streamtest.go.
use openresponses.Prelude.{
  ℕ, suc, ◌≡◌, refl, Bool, true, false, not, ◌&&◌, Option, none, some, List, length, pos, arith,
}
use openresponses.Item.{Content, ContentType, content_type, same_content_type_refl}
use openresponses.Event.{StreamEvent}
use openresponses.EventSink.{EventSink, Act, writer_closed}
use openresponses.Streamtest.Validator.{Validator, ItemState, PartState, has_kind_event}
use openresponses.Streamtest.Check.{handle}
use openresponses.Streamtest.Checked.{CheckedSink, Succeeds, Succeeds-then, Succeeds-fail_if}
use openresponses.Emitter.Parts.{MessageWriter, settle, non_nil, empty_text, is_text, is_refusal}
use openresponses.Emitter.Writer.{
  emit, open_part, close_part, close_part_of, reopen, text_part, refusal_part,
}
use openresponses.Emitter.Lifecycle.Sends.{emit_last, emit_then}
use openresponses.Emitter.Lifecycle.Message.{
  MessageSim, PartSim-some, handle-part_added, MessageSim-part_added, handle-kind_done,
  MessageSim-kind_done, handle-part_done, MessageSim-part_done,
}

-- What the methods leave alone.
pub record SameMessage (w w' : MessageWriter) : Type 0 where
  pub same_id : w'.msg.id ≡ w.msg.id
  pub same_index : w'.index ≡ w.index
  pub same_closed : w'.closed ≡ w.closed

module _ {S : Type 0} {k : EventSink S} (c : CheckedSink k) (items : List ItemState)
    (count : ℕ) where
  abbrev pub Writing : MessageWriter × S → Type 0
  Writing (w, s) =
      (v : Validator) × (n : ℕ) × (st : ItemState) × c.At v n s × MessageSim items count w v st

  abbrev pub Keeps : (MessageWriter → Type 0) → MessageWriter → MessageWriter × S → Type 0
  Keeps P w x = Writing x × SameMessage w x.0 × P x.0

  pub open_part-Writing :
      (p : Content) (w : MessageWriter) (s : S)
      → Writing (w, s)
      → w.part ≡ none
      → Succeeds (Keeps (λ w'. w'.part ≡ some p) w) (open_part k p (w, s))
  unfolding open_part
  open_part-Writing p w s (v, n, st, at, h) e =
      emit_last c (Keeps (λ w'. w'.part ≡ some p) w)
        (λ w'.
          StreamEvent.content_part_added w'.msg.id (pos w'.index) (pos (length w'.msg.content))
            (some p))
        (record w { part = some p }) s v n _ at h.running h.calm refl
        (handle-part_added items count w v n st h p e)
        (λ s' a.
          ((_, suc n, _, a, MessageSim-part_added items count w v n st h p e), ground arith, refl))

  -- The last send of `closePart`.
  abbrev pub last_send : Content → MessageWriter → Act (MessageWriter × S)
  last_send p w = emit k λ (w' : MessageWriter).
      StreamEvent.content_part_done w'.msg.id (pos w'.index) (pos (length w.msg.content)) (some p)

  pub done-Writing :
      (p : Content) (q : PartState) (w : MessageWriter) (s : S) (v : Validator) (n : ℕ)
      (st : ItemState)
      → c.At v n s
      → MessageSim items count w v st
      → st.part ≡ some q
      → q.typ ≡ content_type p
      → has_kind_event q.typ && not q.kind_done ≡ false
      → Succeeds (Keeps (λ w'. w'.part ≡ none) w) (last_send p w (settle p w, s))
  unfolding handle
  done-Writing p q w s v n st at h e t d =
      emit_last c (Keeps (λ w'. w'.part ≡ none) w)
        (λ w'.
          StreamEvent.content_part_done w'.msg.id (pos w'.index) (pos (length w.msg.content))
            (some p))
        (settle p w) s v n _ at h.running h.calm refl
        (handle-part_done items count w v n st h q e p t (same_content_type_refl q.typ) d)
        (λ s' a.
          ((_, suc n, _, a, MessageSim-part_done items count w v n st h q e p), ground arith, refl))

  pub close_some-Writing :
      (p : Content) (q : PartState) (w : MessageWriter) (s : S) (v : Validator) (n : ℕ)
      (st : ItemState)
      → c.At v n s
      → MessageSim items count w v st
      → st.part ≡ some q
      → q.typ ≡ content_type p
      → Succeeds
          (Keeps (λ w'. w'.part ≡ none) w)
          (close_part_of k (some p) (length w.msg.content) (w, s))
  unfolding handle content_type
  close_some-Writing (Content.output_text x) q w s v n st at h e t =
      emit_then c (Keeps (λ w'. w'.part ≡ none) w)
        (λ w'.
          StreamEvent.output_text_done w'.msg.id (pos w'.index) (pos (length w.msg.content)) x.text
            (non_nil x.logprobs))
        (settle (Content.output_text x) w) s v n _ at h.running h.calm refl
        (handle-kind_done items count w v n st h q e ContentType.output_text t refl)
        (last_send (Content.output_text x) w)
        (λ s' a.
          done-Writing (Content.output_text x) (record q { kind_done = true }) w s' _ (suc n) _ a
            (MessageSim-kind_done items count w v n st h q e) refl t (rw t refl))
  close_some-Writing (Content.refusal x) q w s v n st at h e t =
      emit_then c (Keeps (λ w'. w'.part ≡ none) w)
        (λ w'. StreamEvent.refusal_done w'.msg.id (pos w'.index) (pos (length w.msg.content)) x)
        (settle (Content.refusal x) w) s v n _ at h.running h.calm refl
        (handle-kind_done items count w v n st h q e ContentType.refusal t refl)
        (last_send (Content.refusal x) w)
        (λ s' a.
          done-Writing (Content.refusal x) (record q { kind_done = true }) w s' _ (suc n) _ a
            (MessageSim-kind_done items count w v n st h q e) refl t (rw t refl))
  close_some-Writing p q w s v n st at h e t = done-Writing p q w s v n st at h e t (rw t refl)

  pub close_part_cases :
      (o : Option Content) (w : MessageWriter) (s : S)
      → w.part ≡ o
      → Writing (w, s)
      → Succeeds (Keeps (λ w'. w'.part ≡ none) w) (close_part_of k o (length w.msg.content) (w, s))
  close_part_cases none w s e wr = (refl, (wr, ground arith, e))
  close_part_cases (some p) w s e (v, n, st, at, h) =
      let (q, eq, t) = PartSim-some st.part p (rw e at h.part) in
      close_some-Writing p q w s v n st at h eq t

  -- `closePart` leaves no part open.
  pub close_part-Writing :
      (w : MessageWriter) (s : S)
      → Writing (w, s)
      → Succeeds (Keeps (λ w'. w'.part ≡ none) w) (close_part k (w, s))
  unfolding close_part
  close_part-Writing w s wr = close_part_cases w.part w s refl wr

  pub SameMessage-trans :
      (a b d : MessageWriter) → SameMessage a b → SameMessage b d → SameMessage a d
  SameMessage-trans a b d p q = ground arith

  pub reopen-Writing :
      (b : Bool) (p : Content) (P : MessageWriter → Type 0) (w : MessageWriter) (s : S)
      → Writing (w, s)
      → (b ≡ true → P w)
      → ((w' : MessageWriter) → w'.part ≡ some p → P w')
      → Succeeds (Keeps P w) (reopen k b p (w, s))
  unfolding reopen
  reopen-Writing true p P w s wr old new = (refl, (wr, ground arith, old refl))
  reopen-Writing false p P w s wr old new =
      Succeeds-then (Keeps (λ w'. w'.part ≡ none) w) (Keeps P w) (close_part k) (open_part k p)
        (w, s) (close_part-Writing w s wr)
        (λ (w1, s1) (wr1, same1, e1).
          let r = open_part-Writing p w1 s1 wr1 e1 in
          (r.0, (r.1.0, SameMessage-trans w w1 _ same1 r.1.1, new _ r.1.2)))

  -- A part of the kind `t` is open.
  abbrev pub HasPart : ContentType → MessageWriter → Type 0
  HasPart t w = (p : Content) × (w.part ≡ some p) × (content_type p ≡ t)

  pub text_cases :
      (o : Option Content)
      → is_text o ≡ true
      → (p : Content) × (o ≡ some p) × (content_type p ≡ ContentType.output_text)
  unfolding content_type
  text_cases (some (Content.output_text x)) h = (Content.output_text x, refl, refl)
  text_cases _ h = ground arith

  pub refusal_cases :
      (o : Option Content)
      → is_refusal o ≡ true
      → (p : Content) × (o ≡ some p) × (content_type p ≡ ContentType.refusal)
  unfolding content_type
  refusal_cases (some (Content.refusal x)) h = (Content.refusal x, refl, refl)
  refusal_cases _ h = ground arith

  pub text_part-Writing :
      (w : MessageWriter) (s : S)
      → Writing (w, s)
      → w.closed ≡ false
      → Succeeds (Keeps (HasPart ContentType.output_text) w) (text_part k (w, s))
  unfolding text_part content_type
  text_part-Writing w s wr e =
      Succeeds-fail_if (Keeps (HasPart ContentType.output_text) w) w.closed writer_closed _ (w, s) e
        (reopen-Writing (is_text w.part) (Content.output_text empty_text)
          (HasPart ContentType.output_text) w s wr (text_cases w.part) (λ w' e'. (_, e', refl)))

  pub refusal_part-Writing :
      (w : MessageWriter) (s : S)
      → Writing (w, s)
      → w.closed ≡ false
      → Succeeds (Keeps (HasPart ContentType.refusal) w) (refusal_part k (w, s))
  unfolding refusal_part content_type
  refusal_part-Writing w s wr e =
      Succeeds-fail_if (Keeps (HasPart ContentType.refusal) w) w.closed writer_closed _ (w, s) e
        (reopen-Writing (is_refusal w.part) (Content.refusal "") (HasPart ContentType.refusal) w s
          wr (refusal_cases w.part) (λ w' e'. (_, e', refl)))
