-- ===== src/Emitter/Lifecycle/MessageClose.antt =====
-- emitter.go, `MessageWriter.Close`, against the checker of streamtest/streamtest.go.
use openresponses.Prelude.{
  ℕ, suc, ◌≡◌, refl, sym, subst, ap, true, false, none, some, List, [], ◌∷◌, ◌++◌, pos,
}
use openresponses.Item.{Item, ItemType}
use openresponses.Event.{StreamEvent}
use openresponses.EventSink.{EventSink}
use openresponses.Streamtest.Validator.{Validator, ItemState}
use openresponses.Streamtest.Check.{handle}
use openresponses.Streamtest.Checked.{CheckedSink, Succeeds, Succeeds-then}
use openresponses.Emitter.Parts.{MessageWriter, message_of, finish_message}
use openresponses.Emitter.Writer.{emit, close_part, close_message, close_message_unless}
use openresponses.Emitter.Lifecycle.Sends.{emit_last}
use openresponses.Emitter.Lifecycle.Done.{ItemDone}
use openresponses.Emitter.Lifecycle.Message.{handle-message_done}
use openresponses.Emitter.Lifecycle.MessageParts.{Writing, Keeps, close_part-Writing}

module _ {S : Type 0} {k : EventSink S} (c : CheckedSink k) (items : List ItemState)
    (count : ℕ) where
  -- The checker has seen the message done, and no item is open.
  abbrev pub Finished : MessageWriter × S → Type 0
  Finished (w, s) =
      (v : Validator) × (n : ℕ) × (st : ItemState) × c.At v n s
      × ItemDone items count w.msg.id ItemType.message v st
      × (w.closed ≡ true)

  -- The checker does not see whether the writer is closed, or its item's status.
  pub retag-Writing :
      (w w' : MessageWriter) (s : S)
      → w'.index ≡ w.index
      → w'.msg.id ≡ w.msg.id
      → w'.msg.content ≡ w.msg.content
      → w'.part ≡ w.part
      → (Writing c items count) (w, s)
      → (Writing c items count) (w', s)
  retag-Writing w w' s i d m e (v, n, st, at, h) = (
    v,
    n,
    st,
    at,
    record {
      running = h.running;
      calm = h.calm;
      strict = h.strict;
      items_kept = h.items_kept;
      count_kept = h.count_kept;
      opened = h.opened;
      index = rw i h.index;
      id = rw d h.id;
      typ = h.typ;
      item = h.item;
      count_parts = rw m h.count_parts;
      part = rw e h.part;
      no_summary = h.no_summary;
      no_text = h.no_text;
    },
  )

  -- The last send of `Close`.
  pub finished :
      (w : MessageWriter) (s : S)
      → (Writing c items count) (w, s)
      → w.part ≡ none
      → w.closed ≡ true
      → Succeeds Finished (
          emit k
            (λ (w' : MessageWriter).
              StreamEvent.output_item_done (pos w'.index) (some (Item.message (message_of w'))))
            (w, s))
  unfolding handle
  finished w s (v, n, st, at, h) e cl =
      emit_last c Finished
        (λ w'. StreamEvent.output_item_done (pos w'.index) (some (Item.message (message_of w')))) w
        s v n _ at h.running h.calm refl
        (handle-message_done items count w v n st h e (message_of w) refl)
        (λ s' a. (
          _,
          suc n,
          record st { item = Item.message (message_of w); done = true },
          a,
          record {
            running = h.running;
            calm = h.calm;
            strict = h.strict;
            items_done =
                ap (λ l. l ++ record st { item = Item.message (message_of w); done = true } ∷ [])
                  h.items_kept;
            count_kept = h.count_kept;
            none_open = refl;
            id = h.id;
            typ = h.typ;
          },
          cl,
        ))

  pub close_open_message :
      (w : MessageWriter) (s : S)
      → (Writing c items count) (w, s)
      → Succeeds Finished (close_message_unless k false (w, s))
  unfolding close_part
  close_open_message w s wr =
      let w1 = record w { closed = true } in
      Succeeds-then ((Keeps c items count) (λ w'. w'.part ≡ none) w1) Finished (close_part k) _
        (w1, s)
        ((close_part-Writing c items count) w1 s (retag-Writing w w1 s refl refl refl refl wr))
        (λ (w', s') (wr', same, e).
          finished (finish_message w') s'
            (retag-Writing w' (finish_message w') s' refl refl refl refl wr') e same.same_closed)

  pub close_message-Writing :
      (w : MessageWriter) (s : S)
      → (Writing c items count) (w, s)
      → w.closed ≡ false
      → Succeeds Finished (close_message k (w, s))
  unfolding close_message
  close_message-Writing w s wr e =
      subst (λ b. Succeeds Finished (close_message_unless k b (w, s))) (sym e)
        (close_open_message w s wr)
