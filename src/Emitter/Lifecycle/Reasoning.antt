-- ===== src/Emitter/Lifecycle/Reasoning.antt =====
-- emitter.go, `ReasoningWriter`: when the checker of streamtest/streamtest.go is in step with it, and
-- what the checker does at each of its events.
use openresponses.Prelude.{
  ℕ, String, eq_refl, ◌≡◌, refl, true, false, not, ◌&&◌, Option, none, some, List, [], ◌∷◌, ◌++◌,
  length, length-append, pos, arith,
}
use openresponses.Item.{Item, ItemType, Content, content_type, item_type, item_identity}
use openresponses.Streamtest.Validator.{Validator, ItemState, PartState, ok, new_part}
use openresponses.Streamtest.Step.{
  with_open, on_summary_added, on_summary_delta, on_summary_text_done, on_summary_done,
  on_reasoning_delta, on_reasoning_done, on_item_done,
}
use openresponses.Emitter.Parts.{ReasoningWriter, reasoning_of, settle_summary}

abbrev pub SummarySim : Option String → Option PartState → Type 0
SummarySim none none = Unit
SummarySim (some t) (some q) = Unit
SummarySim _ _ = ⊥

pub SummarySim-some :
    (o : Option PartState) (t : String) → SummarySim (some t) o → (q : PartState) × (o ≡ some q)
SummarySim-some none t h = absurd h
SummarySim-some (some q) t h = (q, refl)

-- The checker has the writer's item open. A reasoning text that it has seen is the writer's.
pub record ReasoningSim (items : List ItemState) (count : ℕ) (w : ReasoningWriter) (v : Validator)
    (st : ItemState) : Type 0 where
  pub running : v.terminal ≡ false
  pub calm : v.error_seen ≡ false
  pub strict : v.allow_reuse ≡ false
  pub items_kept : v.items ≡ items
  pub count_kept : v.indexes ≡ count
  pub opened : v.open_item ≡ some st
  pub index : st.index ≡ pos w.index
  pub id : st.id ≡ w.item.id
  pub typ : st.typ ≡ ItemType.reasoning
  pub no_part : st.part ≡ none
  pub count_summaries : length st.summaries ≡ length w.item.summary
  pub summary : SummarySim w.summary st.summary
  pub text_done : st.text_done ≡ w.text_done
  pub no_text : w.text_content ≡ none → st.text_open ≡ false

module _ (items : List ItemState) (count : ℕ) (w : ReasoningWriter) (v : Validator) (n : ℕ)
    (st : ItemState) (h : ReasoningSim items count w v st) where
  pub handle-summary_added :
      w.summary ≡ none
      → (p : Content)
      → on_summary_added v w.item.id (pos w.index) (pos (length w.item.summary)) (some p)
        ≡ ok (with_open v (record st { summary = some (new_part (content_type p)) }))
  unfolding on_summary_added
  handle-summary_added e p = ground (arith, eq_refl w.item.id, h.summary)

  module _ (q : PartState) (open_summary : st.summary ≡ some q) where
    pub handle-summary_delta :
        on_summary_delta v w.item.id (pos w.index) (pos (length w.item.summary)) ≡ ok v
    unfolding on_summary_delta
    handle-summary_delta = ground (arith, eq_refl w.item.id)

    pub handle-summary_text_done :
        on_summary_text_done v w.item.id (pos w.index) (pos (length w.item.summary))
        ≡ ok (with_open v (record st { summary = some (record q { kind_done = true }) }))
    unfolding on_summary_text_done
    handle-summary_text_done = ground (arith, eq_refl w.item.id)

    pub handle-summary_done :
        q.kind_done ≡ true
        → on_summary_done v w.item.id (pos w.index) (pos (length w.item.summary))
          ≡ ok (
              with_open v (record st {
                summaries = st.summaries ++ record q { done = true } ∷ [];
                summary = none;
              }))
    unfolding on_summary_done
    handle-summary_done d = ground (arith, eq_refl w.item.id)

    pub ReasoningSim-summary_done :
        (t : String)
        → let st' = record st {
          summaries = st.summaries ++ record q { done = true } ∷ [];
          summary = none;
        } in
          ReasoningSim items count (settle_summary t w) (with_open v st') st'
    ReasoningSim-summary_done t = record {
      running = h.running;
      calm = h.calm;
      strict = h.strict;
      items_kept = h.items_kept;
      count_kept = h.count_kept;
      opened = refl;
      index = h.index;
      id = h.id;
      typ = h.typ;
      no_part = h.no_part;
      count_summaries = omega (
        arith,
        h.count_summaries,
        length-append st.summaries (record q { done = true } ∷ []),
        length-append w.item.summary (some (Content.summary_text t) ∷ []),
      );
      summary = tt;
      text_done = h.text_done;
      no_text = h.no_text;
    }

  pub handle-reasoning_delta :
      w.text_done ≡ false
      → on_reasoning_delta v w.item.id (pos w.index)
        ≡ ok (with_open v (record st { text_open = true }))
  unfolding on_reasoning_delta
  handle-reasoning_delta e = ground (arith, eq_refl w.item.id)

  pub handle-reasoning_done :
      on_reasoning_done v w.item.id (pos w.index)
      ≡ ok (with_open v (record st { text_done = true }))
  unfolding on_reasoning_done
  handle-reasoning_done = ground (arith, eq_refl w.item.id)

  pub handle-reasoning_item_done :
      w.summary ≡ none
      → st.text_open && not st.text_done ≡ false
      → on_item_done v (pos w.index) (some (Item.reasoning (reasoning_of w)))
        ≡ ok (record v {
          items = v.items ++ record st { item = Item.reasoning (reasoning_of w); done = true } ∷ [];
          open_item = none;
        })
  unfolding on_item_done item_type item_identity
  handle-reasoning_item_done e t = ground (arith, eq_refl w.item.id, h.summary)
