-- ===== src/Emitter/Lifecycle/Open.antt =====
-- emitter.go, the calls that add an item, against the checker of streamtest/streamtest.go.
use openresponses.Prelude.{
  ℕ, suc, String, ◌≡◌, refl, sym, true, false, Option, none, some, [], ◌∷◌, ◌++◌, length,
  length-append, pos, arith, eq_refl, inl,
}
use openresponses.Item.{Extra, Item, Items, item_type, item_id, item_identity, same_item_type_refl}
use openresponses.Event.{StreamEvent}
use openresponses.EventSink.{EventSink, SendError}
use openresponses.Streamtest.Validator.{Validator, ItemState, ok, new_item_state}
use openresponses.Streamtest.Step.{on_item_added, on_item_done}
use openresponses.Streamtest.Check.{handle}
use openresponses.Streamtest.Checked.{CheckedSink, Succeeds, Succeeds-then}
use openresponses.Emitter.State.{
  Writer, Emitter, item_of, finish_item, new_message, new_call, new_reasoning,
}
use openresponses.Emitter.Calls.{announce, opened, open_writer, before_item, whole_item, add_whole}
use openresponses.Emitter.Lifecycle.Items.{Matches-append}
use openresponses.Emitter.Lifecycle.Start.{before_item-Between}
use openresponses.Emitter.Lifecycle.Invariant.{
  Idle, OpenSim, Inv, Ready, Between, emits_last, emits_then,
}

-- The checker's state after the event of a new item.
abbrev added : Items → Validator → Item → Validator
added out v i = record v {
  indexes = suc v.indexes;
  open_item = some (new_item_state (pos (length out)) i);
}

handle-item_added :
    (out : Items) (v : Validator) (i : Item)
    → Idle out v
    → on_item_added v (pos (length out)) (some i) ≡ ok (added out v i)
unfolding on_item_added
handle-item_added out v i h = ground arith

finish_item_type : (i : Item) → item_type (finish_item i) ≡ item_type i
unfolding item_type
finish_item_type (Item.message m) = refl
finish_item_type _ = refl

finish_item_id : (i : Item) → item_id (finish_item i) ≡ item_id i
unfolding item_identity
finish_item_id (Item.message m) = refl
finish_item_id _ = refl

abbrev done_state : Items → Item → ItemState
unfolding new_item_state
done_state out i = record (new_item_state (pos (length out)) i) {
  item = finish_item i;
  done = true;
}

handle-whole_done :
    (out : Items) (v : Validator) (i : Item)
    → Idle out v
    → on_item_done (added out v i) (pos (length out)) (some (finish_item i))
      ≡ ok (record v {
        indexes = suc v.indexes;
        items = v.items ++ done_state out i ∷ [];
        open_item = none;
      })
unfolding on_item_done new_item_state
handle-whole_done out v i h = ground (
  arith,
  finish_item_type i,
  finish_item_id i,
  eq_refl (item_id i),
  same_item_type_refl (item_type i),
)

whole-Idle :
    (out : Items) (v : Validator) (i : Item)
    → Idle out v
    → Idle (out ++ some (finish_item i) ∷ []) (record v {
      indexes = suc v.indexes;
      items = v.items ++ done_state out i ∷ [];
      open_item = none;
    })
unfolding done_state new_item_state
whole-Idle out v i h = record {
  running = h.running;
  calm = h.calm;
  strict = h.strict;
  next = omega (arith, h.next, length-append out (some (finish_item i) ∷ []));
  none_open = refl;
  matches =
      Matches-append out v.items (finish_item i) (done_state out i) h.matches
        (sym (finish_item_type i)) (sym (finish_item_id i));
}

module _ {S : Type 0} {k : EventSink S} (c : CheckedSink k) where
  -- What a new writer must be, for the checker to be in step with it.
  abbrev pub IsNew : (ℕ → Writer) → Type 0
  IsNew new =
      (out : Items) (v : Validator)
      → Idle out v
      → OpenSim (new (length out)) v.items (suc (length out))
          (added out v (item_of (new (length out))))
          (new_item_state (pos (length out)) (item_of (new (length out))))

  opened-Ready :
      (w : Writer) (e : Emitter S) (r : S × Option SendError)
      → r.1 ≡ none
      → Ready c (record e { sink = r.0; open_writer = some w })
      → Succeeds (Ready c) (opened k w e r)
  opened-Ready w e (s, none) h q = (refl, q)
  opened-Ready w e (s, some x) h q = cc

  announce-Ready :
      (new : ℕ → Writer)
      → IsNew new
      → (e : Emitter S) → Between c e
      → Succeeds (Ready c) (announce k new e)
  unfolding handle
  announce-Ready new isnew e (v, n, at, h, w, s, t) =
      let out = e.resp.output in
      let i = item_of (new (length out)) in
      let r =
        c.takes v n e.sink (StreamEvent.output_item_added (pos (length out)) (some i))
          (added out v i) at h.running h.calm refl (handle-item_added out v i h) in
      opened-Ready (new (length out)) e _ r.0 (
        added out v i,
        suc n,
        r.1,
        inl (v.items, new_item_state (pos (length out)) i, h.matches, isnew out v h),
        s,
        t,
      )

  pub open_writer-Ready :
      (new : ℕ → Writer)
      → IsNew new
      → (e : Emitter S) → Inv c e
      → e.terminal ≡ false
      → Succeeds (Ready c) (open_writer k new e)
  unfolding open_writer
  open_writer-Ready new isnew e i t =
      Succeeds-then (Between c) (Ready c) (before_item k) (announce k new) e
        (before_item-Between c e i t) (announce-Ready new isnew)

  pub new_message-IsNew : (id phase : String) → IsNew (new_message id phase)
  unfolding new_item_state item_type item_identity
  new_message-IsNew id phase out v h = (ground arith, refl)

  pub new_call-IsNew : (id fresh call_id name : String) → IsNew (new_call id fresh call_id name)
  unfolding new_item_state item_type item_identity
  new_call-IsNew id fresh call_id name out v h = (ground arith, refl)

  pub new_reasoning-IsNew : (id : String) (extra : Extra) → IsNew (new_reasoning id extra)
  unfolding new_item_state item_type item_identity
  new_reasoning-IsNew id extra out v h = (ground arith, refl, refl)

  add_whole-Between :
      (i : Item) (e : Emitter S) → Between c e → Succeeds (Between c) (add_whole k i e)
  unfolding handle
  add_whole-Between i e (v, n, at, h, w, s, t) =
      let out = e.resp.output in
      emits_then c (Between c) (λ _. StreamEvent.output_item_added (pos (length out)) (some i))
        (record e { resp = record e.resp { output = out ++ some i ∷ [] } }) v n _ at h.running
        h.calm refl (handle-item_added out v i h) _
        (λ s1 a.
          emits_last c (Between c)
            (λ _. StreamEvent.output_item_done (pos (length out)) (some (finish_item i)))
            (record e {
              sink = s1;
              resp = record e.resp { output = out ++ some (finish_item i) ∷ [] };
            })
            _ (suc n) _ a h.running h.calm refl (handle-whole_done out v i h)
            (λ s2 b. (_, suc (suc n), b, whole-Idle out v i h, w, s, t)))

  pub whole_item-Between :
      (i : Item) (e : Emitter S)
      → Inv c e
      → e.terminal ≡ false
      → Succeeds (Between c) (whole_item k i e)
  unfolding whole_item
  whole_item-Between i e inv t =
      Succeeds-then (Between c) (Between c) (before_item k) (add_whole k i) e
        (before_item-Between c e inv t) (add_whole-Between i)
