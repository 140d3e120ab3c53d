-- ===== src/Emitter/Lifecycle/Amend.antt =====
-- emitter.go, `ReasoningWriter.EncryptedContent` and other changes of the item that the open
-- reasoning writer holds, against the checker of streamtest/streamtest.go.
use openresponses.Prelude.{
  ℕ, ◌≡◌, refl, sym, subst, ap, ◌∙◌, none, some, List, [], ◌∷◌, ◌++◌, inl, inr, length,
  length-append, arith,
}
use openresponses.Item.{Item, Items, ReasoningItem, item_type, item_id, item_identity}
use openresponses.EventSink.{EventSink}
use openresponses.Streamtest.Validator.{Validator, ItemState}
use openresponses.Streamtest.Checked.{CheckedSink}
use openresponses.Emitter.State.{Writer, item_of}
use openresponses.Emitter.Parts.{ReasoningWriter}
use openresponses.Emitter.Calls.{amend_as}
use openresponses.Emitter.Lifecycle.Invariant.{WriterSim, Idle}
use openresponses.Emitter.Lifecycle.Items.{Matches}
use openresponses.Emitter.Lifecycle.Reasoning.{ReasoningSim}
use openresponses.Emitter.Lifecycle.Calls.{AnyWriter}

-- What the checker sees of a reasoning item.
pub record SameItem (i j : ReasoningItem) : Type 0 where
  pub same_id : j.id ≡ i.id
  pub same_summary : j.summary ≡ i.summary
  pub same_content : j.content ≡ i.content

Matches-last :
    (out : Items) (items : List ItemState) (i j : Item)
    → item_type j ≡ item_type i
    → item_id j ≡ item_id i
    → Matches (out ++ some i ∷ []) items
    → Matches (out ++ some j ∷ []) items
Matches-last [] [] i j t d m = m
Matches-last [] (st ∷ []) i j t d m = ground arith
Matches-last [] (st ∷ st' ∷ items) i j t d m = absurd m.2
Matches-last (none ∷ out) items i j t d m = absurd m
Matches-last (some x ∷ out) [] i j t d m = absurd m
Matches-last (some x ∷ out) (st ∷ items) i j t d m = (m.0, m.1, Matches-last out items i j t d m.2)

Idle-last :
    (out : Items) (v : Validator) (i j : Item)
    → item_type j ≡ item_type i
    → item_id j ≡ item_id i
    → Idle (out ++ some i ∷ []) v
    → Idle (out ++ some j ∷ []) v
Idle-last out v i j t d h = record {
  running = h.running;
  calm = h.calm;
  strict = h.strict;
  next = omega (arith, h.next, length-append out (some i ∷ []), length-append out (some j ∷ []));
  none_open = h.none_open;
  matches = Matches-last out v.items i j t d h.matches;
}

module _ {S : Type 0} {k : EventSink S} (c : CheckedSink k) (f : ReasoningItem → ReasoningItem)
    (same : (i : ReasoningItem) → SameItem i (f i)) where
  amend-ReasoningSim :
      (items : List ItemState) (n : ℕ) (w : ReasoningWriter) (v : Validator) (st : ItemState)
      → ReasoningSim items n w v st
      → ReasoningSim items n (record w { item = f w.item }) v st
  amend-ReasoningSim items n w v st h =
      let s = same w.item in
      record {
        running = h.running;
        calm = h.calm;
        strict = h.strict;
        items_kept = h.items_kept;
        count_kept = h.count_kept;
        opened = h.opened;
        index = h.index;
        id = h.id ∙ sym s.same_id;
        typ = h.typ;
        no_part = h.no_part;
        count_summaries = h.count_summaries ∙ sym (ap (λ l. length l) s.same_summary);
        summary = h.summary;
        text_done = h.text_done;
        no_text = h.no_text;
      }

  pub amend-AnyWriter : AnyWriter c (amend_as k f)
  unfolding item_type item_identity
  amend-AnyWriter none e v n at h o s t =
      (v, n, at, subst (λ x. WriterSim e.resp.output x v) (sym o) h, s, t)
  amend-AnyWriter (some (Writer.message w)) e v n at h o s t =
      (v, n, at, subst (λ x. WriterSim e.resp.output x v) (sym o) h, s, t)
  amend-AnyWriter (some (Writer.call w)) e v n at h o s t =
      (v, n, at, subst (λ x. WriterSim e.resp.output x v) (sym o) h, s, t)
  amend-AnyWriter (some (Writer.reasoning w)) e v n at (inl (items, st, mt, (h, cl, td))) o s t =
      (v, n, at, inl (items, st, mt, (amend-ReasoningSim items _ w v st h, cl, td)), s, t)
  amend-AnyWriter (some (Writer.reasoning w)) e v n at (inr (h, cl, ns)) o s t = (
    v,
    n,
    at,
    inr (
      Idle-last e.resp.output v (item_of (Writer.reasoning w))
          (item_of (Writer.reasoning (record w { item = f w.item }))) refl (same w.item).same_id h,
      cl,
      ns,
    ),
    s,
    t,
  )
