-- ===== src/Emitter/Lifecycle/Message.antt =====
-- emitter.go, `MessageWriter`: when the checker of streamtest/streamtest.go is in step with it, and
-- what the checker does at each of its events.
use openresponses.Prelude.{
  ℕ, eq_refl, ◌≡◌, refl, true, false, not, ◌&&◌, Option, none, some, List, [], ◌∷◌, ◌++◌, length,
  length-append, pos, arith,
}
use openresponses.Item.{
  Item, ItemType, Message, Content, ContentType, content_type, same_content_type, item_type,
  item_identity,
}
use openresponses.Event.{StreamEvent}
use openresponses.Streamtest.Validator.{
  Validator, ItemState, PartState, ok, new_part, is_message, has_kind_event,
}
use openresponses.Streamtest.Step.{
  with_open, on_part_added, on_part_delta, on_kind_done, on_part_done, on_item_done,
}
use openresponses.Streamtest.Check.{handle}
use openresponses.Emitter.Parts.{MessageWriter, settle}

abbrev pub PartSim : Option Content → Option PartState → Type 0
PartSim none none = Unit
PartSim (some p) (some q) = (q.typ ≡ content_type p) × (q.done ≡ false)
PartSim _ _ = ⊥

PartSim-kind_done :
    (o : Option Content) (q : PartState)
    → PartSim o (some q)
    → PartSim o (some (record q { kind_done = true }))
PartSim-kind_done none q h = absurd h
PartSim-kind_done (some p) q h = h

pub PartSim-some :
    (o : Option PartState) (p : Content)
    → PartSim (some p) o
    → (q : PartState) × (o ≡ some q) × (q.typ ≡ content_type p)
PartSim-some none p h = absurd h
PartSim-some (some q) p h = (q, refl, h.0)

-- The checker has the writer's message open. `items` and `count` are the items that it has seen
-- done, and the indexes that it has seen.
pub record MessageSim (items : List ItemState) (count : ℕ) (w : MessageWriter) (v : Validator)
    (st : ItemState) : Type 0 where
  pub running : v.terminal ≡ false
  pub calm : v.error_seen ≡ false
  pub strict : v.allow_reuse ≡ false
  pub items_kept : v.items ≡ items
  pub count_kept : v.indexes ≡ count
  pub opened : v.open_item ≡ some st
  pub index : st.index ≡ pos w.index
  pub id : st.id ≡ w.msg.id
  pub typ : st.typ ≡ ItemType.message
  pub item : is_message st.item ≡ true
  pub count_parts : length st.parts ≡ length w.msg.content
  pub part : PartSim w.part st.part
  pub no_summary : st.summary ≡ none
  pub no_text : st.text_open ≡ false

module _ (items : List ItemState) (count : ℕ) (w : MessageWriter) (v : Validator) (n : ℕ)
    (st : ItemState) (h : MessageSim items count w v st) where
  pub handle-part_added :
      (p : Content)
      → w.part ≡ none
      → handle v n (
          StreamEvent.content_part_added w.msg.id
            (pos w.index)
            (pos (length w.msg.content))
            (some p))
        ≡ ok (with_open v (record st { part = some (new_part (content_type p)) }))
  unfolding handle on_part_added
  handle-part_added p e = ground (arith, eq_refl w.msg.id, h.part)

  pub MessageSim-part_added :
      (p : Content)
      → w.part ≡ none
      → let st' = record st { part = some (new_part (content_type p)) } in
        MessageSim items count (record w { part = some p }) (with_open v st') st'
  MessageSim-part_added p e = ground arith

  module _ (q : PartState) (open_part : st.part ≡ some q) where
    pub handle-part_delta :
        (t : ContentType)
        → q.typ ≡ t
        → same_content_type t t ≡ true
        → on_part_delta v w.msg.id (pos w.index) (pos (length w.msg.content)) t ≡ ok v
    unfolding on_part_delta
    handle-part_delta t e r = ground (arith, eq_refl w.msg.id)

    pub handle-kind_done :
        (t : ContentType)
        → q.typ ≡ t
        → same_content_type t t ≡ true
        → on_kind_done v w.msg.id (pos w.index) (pos (length w.msg.content)) t
          ≡ ok (with_open v (record st { part = some (record q { kind_done = true }) }))
    unfolding on_kind_done
    handle-kind_done t e r = ground (arith, eq_refl w.msg.id)

    pub handle-part_done :
        (p : Content)
        → q.typ ≡ content_type p
        → same_content_type q.typ q.typ ≡ true
        → has_kind_event q.typ && not q.kind_done ≡ false
        → on_part_done v w.msg.id (pos w.index) (pos (length w.msg.content)) (some p)
          ≡ ok (
              with_open v
                (record st { parts = st.parts ++ record q { done = true } ∷ []; part = none }))
    unfolding on_part_done
    handle-part_done p e r d = ground (arith, eq_refl w.msg.id)

    pub MessageSim-kind_done :
        let st' = record st { part = some (record q { kind_done = true }) } in
        MessageSim items count w (with_open v st') st'
    MessageSim-kind_done = ground (arith, h.part, PartSim-kind_done w.part q)

    pub MessageSim-part_done :
        (p : Content)
        → let st' = record st { parts = st.parts ++ record q { done = true } ∷ []; part = none } in
          MessageSim items count (settle p w) (with_open v st') st'
    MessageSim-part_done p = ground (
      arith,
      length-append st.parts (record q { done = true } ∷ []),
      length-append w.msg.content (some p ∷ []),
    )

  pub handle-message_done :
      w.part ≡ none
      → (m : Message) → m.id ≡ w.msg.id
      → on_item_done v (pos w.index) (some (Item.message m))
        ≡ ok (record v {
          items = v.items ++ record st { item = Item.message m; done = true } ∷ [];
          open_item = none;
        })
  unfolding on_item_done item_type item_identity
  handle-message_done e m i = ground (arith, eq_refl w.msg.id, h.part)
